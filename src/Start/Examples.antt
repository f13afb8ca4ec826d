-- ===== src/Start/Examples.antt =====
-- A start on a memory map with one small entry.
mod Booting
mod Faulting
mod Trapping
mod Mapping
use vega_os.Base.{get_elem?, arith, ◌+◌, ◌*◌, ◌%◌, ◌≡◌, refl, ℕ, true, some, none, [], ◌∷◌, ◌++◌}
use vega_os.Outcome.{ok, fault, halted, ◌>>=◌}
use vega_os.Log.{Call, codes, num, kinfo, kwarn}
use vega_os.Pmm.State.{Entry, Window, Pmm, usable}
use vega_os.Pmm.Setup.{pmm_init, init_messages}
use vega_os.Amd64.Idt.{idt_zero}
use vega_os.Start.{
  Machine, Addresses, amd64, aarch64, announce, arch_init, start, get_vendor, board_line, panic,
}
use vega_os.Fb.{Framebuffer, fb_assert}
use vega_os.Fb.Laws.{IsAddressable}
use vega_os.Pty.Total.{console_at}
use vega_os.Printk.{by_reference, by_copy, Printer, printk_default_fg}
use vega_os.Printk.Render.{done, piece, render, draw}
use vega_os.Printk.Refine.{console_of}
use vega_os.Printk.Plans.{bracket}
use vega_os.Start.Panic.{panic-draw}
use vega_os.Amd64.Exceptions.{isr_table, isr_panic}
use vega_os.Start.Handlers.{handler_plan, panic-isr_panic}
use vega_os.Start.Blind.{blind, panic-null}
use vega_os.Start.Vectors.{panic-el1_sp0_sync}
use vega_os.Aarch64.Exceptions.{el1_sp0_sync, do_panic}
use vega_os.Pal.{stop}
use vega_os.Pal.Amd64.{amd64_pal, interrupts}
use vega_os.Pal.Examples.{Flags, flags, running}
use vega_os.Start.Levels.{line, log_plan, print_all-kinfo}
use vega_os.Start.Lines.{print_all, IsOn}
use vega_os.Start.Console.{start-prints}

abbrev pub window : Window
window = record { phys = λ a. a; higher_half = 0xffff_8000_0000_0000 }

abbrev pub entry : Entry
entry = record { base = 0x1_0000; length = 0x800; type = usable }

abbrev pub addresses : Addresses
addresses = record {
  gdt = 0x1000;
  idt = 0x2000;
  isr = λ v. 0x3000 + v % 256 * 16;
  vector_tbl = 0x4000;
}

abbrev pub off : Machine
off = record {
  pmm = record { mmap_resp = none; bitmap = 0; bitmap_start_bit = 0; mem = λ _. 0; log = [] };
  gdt_register = record { limit = 0; offset = 0 };
  idt_register = record { limit = 0; offset = 0 };
  idt = idt_zero;
  control = record {
    sysregs = record {
      ttbr0_el1 = 0;
      ttbr1_el1 = 0;
      contextidr_el1 = 0;
      mair_el1 = 0;
      tcr_el1 = 0;
      id_aa64mmfr0_el1 = 0;
    };
    pagemap = record { ttbr = λ _. 0; asid = 0 };
    log = [];
  };
  vbar_el1 = 0;
  midr_el1 = 0x410f_d083;
}

vendor : get_vendor off.midr_el1 ≡ "Arm Limited"
unfolding get_vendor
vendor = refl

board : board_line off.midr_el1 ≡ "Detected board: Raspberry Pi 4\n"
unfolding board_line
board = refl

-- Without an answer from the boot loader the kernel reads through NULL.
no_answer : start window amd64 addresses (codes "0.1") none off ≡ fault
unfolding start pmm_init
no_answer = refl

abbrev pub ready : Pmm
ready = record (announce (codes "0.1") off.pmm) {
  mmap_resp = some (entry ∷ []);
  log = (announce (codes "0.1") off.pmm).log ++ init_messages 0x1000 0;
}

abbrev pub booted : Machine
booted = arch_init aarch64 addresses (record off { pmm = ready })

pub starts : start window aarch64 addresses (codes "0.1") (some (entry ∷ [])) off ≡ ok booted
unfolding start pmm_init
starts = refl

abbrev pub small : Framebuffer
small = record { width = 640; height = 480; pitch = 2560 }

pub addressable : IsAddressable small
addressable = record { wide = omega arith; reached = omega arith }

abbrev pub printer : Printer
printer = record {
  console = console_at small addressable (λ _. 0) 0 0;
  hex_string = λ _. 0;
  dec_string = λ _. 0;
}

start-prints_example :
    (t : Printer) × (print_all by_copy booted.pmm.log printer ≡ ok t)
    × IsOn small addressable t
    × (draw (log_plan by_copy booted.pmm.log) printer.console ≡ ok t.console)
start-prints_example =
    start-prints window aarch64 addresses (codes "0.1") (some (entry ∷ [])) off booted small
      addressable by_copy printer starts tt refl (omega arith) (λ _. 0, 0, 0, refl)

abbrev message : Call
message = record { fmt = codes "oops %d"; args = num 3 ∷ [] }

panic-draw_example :
    (panic (amd64_pal flags) by_reference message printer running >>= (λ r. console_of r.0))
    ≡ draw
        (bracket piece
          (codes " KPANIC")
          0xff0000
          (render by_reference message.fmt message.args printk_default_fg))
        printer.console
panic-draw_example =
    panic-draw (amd64_pal flags) by_reference message printer running (omega arith, tt)

print_all-kinfo_example :
    ((print_all by_reference (kinfo (codes "pmm") (codes "%d free\n") (num 3 ∷ [])) printer
        >>= console_of)
      ≡ draw
          (line piece
            (codes " INFO")
            0x00a36c
            (codes "pmm")
            (render by_reference (codes "%d free\n") (num 3 ∷ []) printk_default_fg))
          printer.console)
    × ((print_all by_reference (kwarn (codes "pmm") (codes "%d free\n") (num 3 ∷ [])) printer
          >>= console_of)
        ≡ draw
            (line piece
              (codes " WARN")
              0xbf40bf
              (codes "pmm")
              (render by_reference (codes "%d free\n") (num 3 ∷ []) printk_default_fg))
            printer.console)
print_all-kinfo_example =
    print_all-kinfo by_reference (codes "pmm") (codes "%d free\n") (num 3 ∷ []) printer
      (omega arith, tt)

pub page_fault : get_elem? isr_table 12 ≡ some (0xe, "Page fault")
unfolding isr_table
page_fault = refl

panic-null_example :
    (panic (amd64_pal flags) by_reference message (blind (λ _. 0) 9 16 (λ _. 0) (λ _. 0)) running
      ≡ fault)
    × (fb_assert (blind (λ _. 0) 9 16 (λ _. 0) (λ _. 0)).console.screen ≡ halted)
panic-null_example =
    panic-null (amd64_pal flags) by_reference message running (λ _. 0) 9 16 (λ _. 0) (λ _. 0)
