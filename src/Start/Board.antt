-- ===== src/Start/Board.antt =====
-- The lines about the board, whatever the register says.
use Prim.Native.String.{String}
use vega_os.Base.{
  ℕ, ◌≡◌, refl, arith, bit_and, ◌>>◌, ◌==◌, Bool, Bool-cases, inl, inr, true, ◌&&◌, List, [], ◌∷◌,
}
use vega_os.Log.{codes, kinfo, str}
use vega_os.Pty.Total.{are_printable}
use vega_os.Printk.{VaList, by_reference, by_copy, printk_default_fg, get_color}
use vega_os.Printk.Render.{render, convert}
use vega_os.Printk.Total.{is_whole, printable-AreBytes}
use vega_os.Start.{switch, vendors, boards, this_module, get_vendor, board_line, get_board_info}
use vega_os.Start.Lines.{IsWhole, AreWhole, AreWhole-append, kinfo-AreWhole}

-- A test that every text of a `switch` passes is passed by the one it chooses.
abbrev all_pass : (String → Bool) → List (ℕ × String) → Bool
all_pass test [] = true
all_pass test ((label, text) ∷ cases) = test text && all_pass test cases

switch-all_pass :
    (test : String → Bool) (value : ℕ) (cases : List (ℕ × String)) (default : String)
    → all_pass test cases ≡ true
    → test default ≡ true
    → test (switch value cases default) ≡ true
switch-all_pass test value [] default each last = last
switch-all_pass test value ((label, text) ∷ cases) default each last =
    let rest = switch-all_pass test value cases default (ground arith) last in
    elim (Bool-cases (value == label)) [
      | inl hit ↦ rw (hit) (ground arith)
      | inr miss ↦ rw (miss) rest
    ]

vendor_is_printable : (midr_el1 : ℕ) → are_printable (codes (get_vendor midr_el1)) ≡ true
unfolding get_vendor
vendor_is_printable midr_el1 =
    switch-all_pass (λ s. are_printable (codes s)) (bit_and (midr_el1 >> 24) 0xff) vendors
      "Unrecognized vendor" refl refl

-- A line without arguments that is printed to its end, however a va_list is passed.
is_line : String → Bool
is_line s =
    are_printable (codes s)
    && is_whole (render by_reference (codes s) [] printk_default_fg)
    && is_whole (render by_copy (codes s) [] printk_default_fg)

is_line-IsWhole : (s : String) → is_line s ≡ true → IsWhole (record { fmt = codes s; args = [] })
unfolding is_line
is_line-IsWhole s line = record {
  whole = λ va. either va;
  fmt_bytes = printable-AreBytes (codes s) (ground arith);
  arg_bytes = tt;
  words = tt;
}
  where
    either : (va : VaList) → is_whole (render va (codes s) [] printk_default_fg) ≡ true
    either by_reference = ground arith
    either by_copy = ground arith

board_line-IsWhole :
    (midr_el1 : ℕ) → IsWhole (record { fmt = codes (board_line midr_el1); args = [] })
unfolding board_line is_line render get_color convert
board_line-IsWhole midr_el1 =
    is_line-IsWhole (board_line midr_el1)
      (switch-all_pass is_line (bit_and (midr_el1 >> 4) 0xfff) boards "Unknown \n" refl refl)

vendor_line-IsWhole :
    (vendor : List ℕ)
    → are_printable vendor ≡ true
    → IsWhole (record { fmt = codes "Detected vendor: %s\n"; args = str vendor ∷ [] })
unfolding render get_color convert
vendor_line-IsWhole vendor printable = record {
  whole = λ va. rw (printable) refl;
  fmt_bytes = omega arith;
  arg_bytes = (printable-AreBytes vendor printable, tt);
  words = tt;
}

pub get_board_info-AreWhole : (midr_el1 : ℕ) → AreWhole (get_board_info midr_el1)
unfolding get_board_info
get_board_info-AreWhole midr_el1 =
    let vendor = codes (get_vendor midr_el1) in
    AreWhole-append (kinfo this_module (codes (board_line midr_el1)) [])
      (kinfo this_module (codes "Detected vendor: %s\n") (str vendor ∷ []))
      (kinfo-AreWhole this_module (codes (board_line midr_el1)) [] refl
        (board_line-IsWhole midr_el1))
      (kinfo-AreWhole this_module (codes "Detected vendor: %s\n") (str vendor ∷ []) refl
        (vendor_line-IsWhole vendor (vendor_is_printable midr_el1)))
