-- ===== src/Start.antt =====
-- core/init.c and core/panic.c: the order in which the kernel starts, and its end in a panic.
pub mod Panic
pub mod Blind
pub mod Lines
pub mod Levels
pub mod Board
pub mod Handlers
pub mod Vectors
pub mod Console
pub mod Boot
pub mod Faults
pub mod Exceptions
pub mod Paging
pub mod Examples
use Prim.Native.String.{String}
use vega_os.Base.{
  ℕ, ◌/◌, ◌%◌, ◌+◌, ◌*◌, Option, List, [], ◌∷◌, ◌++◌, ◌==◌, if◌then◌else◌, bit_and, ◌>>◌,
}
use vega_os.Log.{Call, codes, str, color_code, kinfo}
use vega_os.Outcome.{Outcome, ok, ◌>>=◌}
use vega_os.Pmm.State.{Entry, Window, Pmm}
use vega_os.Pmm.Setup.{pmm_init}
use vega_os.Amd64.Gdt.{Gdtr, gdtr}
use vega_os.Amd64.Idt.{Idt, Idtr, idtr}
use vega_os.Amd64.Exceptions.{exceptions_init}
use vega_os.Mmu.Registers.{Control, aarch64_mmu_init}
use vega_os.Pal.{Pal, stop}
use vega_os.Printk.{VaList, Printer, printk, vprintk}

-- A `switch` over texts: its cases in order, and its default.
abbrev pub switch : ℕ → List (ℕ × String) → String → String
switch value [] default = default
switch value ((label, text) ∷ cases) default =
    if value == label then text else switch value cases default

abbrev pub vendors : List (ℕ × String)
vendors =
    (0xc0, "Ampere Computing")
    ∷ (0x41, "Arm Limited")
    ∷ (0x42, "Broadcom Corporation")
    ∷ (0x43, "Cavium Inc")
    ∷ (0x44, "Digital Equipment Corporation")
    ∷ (0x46, "Fujitsu Ltd")
    ∷ (0x49, "Infineon Technologies AG")
    ∷ (0x4d, "Motorola or Freescale Semiconductor Inc")
    ∷ (0x4e, "NVIDIA Corporation")
    ∷ (0x50, "Applied Micro Circuits Corporation")
    ∷ (0x51, "Qualcomm Inc")
    ∷ (0x56, "Marvell International Ltd")
    ∷ (0x69, "Intel Corporation")
    ∷ []

unfoldable pub get_vendor : ℕ → String
get_vendor midr_el1 = switch (bit_and (midr_el1 >> 24) 0xff) vendors "Unrecognized vendor"

abbrev pub boards : List (ℕ × String)
boards =
    (0xb76, "Detected board: Raspberry Pi 1\n")
    ∷ (0xc07, "Detected board: Raspberry Pi 2\n")
    ∷ (0xd03, "Detected board: Raspberry Pi 3\n")
    ∷ (0xd08, "Detected board: Raspberry Pi 4\n")
    ∷ []

unfoldable pub board_line : ℕ → String
board_line midr_el1 = switch (bit_and (midr_el1 >> 4) 0xfff) boards "Unknown \n"

abbrev pub this_module : List ℕ
this_module = codes "kinit"

-- The lines printed for the value of the register midr_el1.
unfoldable pub get_board_info : ℕ → List Call
get_board_info midr_el1 =
    kinfo this_module (codes (board_line midr_el1)) []
    ++ kinfo this_module (codes "Detected vendor: %s\n") (str (codes (get_vendor midr_el1)) ∷ [])

-- The kernel's parts; what has been printed so far is the log of `pmm`. The two descriptor
-- registers and the gates are those of amd64, `control`, vbar_el1 and midr_el1 those of aarch64.
pub record Machine : Type 0 where
  pub pmm : Pmm
  pub gdt_register : Gdtr
  pub idt_register : Idtr
  pub idt : Idt
  pub control : Control
  pub vbar_el1 : ℕ
  pub midr_el1 : ℕ

-- What the linker decides: the addresses of `gdt`, `idt` and the handlers of amd64, and of the
-- vectors of aarch64.
pub record Addresses : Type 0 where
  pub gdt : ℕ
  pub idt : ℕ
  pub isr : ℕ → ℕ
  pub vector_tbl : ℕ

pub data Arch : Type 0 where
  amd64 : Arch
  aarch64 : Arch

-- On aarch64 exceptions_init (aarch64/exceptions.s) writes vbar_el1.
unfoldable pub arch_init : Arch → Addresses → Machine → Machine
arch_init amd64 addresses m = record m {
  gdt_register = gdtr addresses.gdt;
  idt_register = idtr addresses.idt;
  idt = exceptions_init addresses.isr m.idt;
}
arch_init aarch64 addresses m =
    let control = aarch64_mmu_init (record m.control { log = m.pmm.log }) in
    record m {
      control = control;
      vbar_el1 = addresses.vector_tbl;
      pmm = record m.pmm { log = control.log ++ get_board_info m.midr_el1 };
    }

-- The first line; the version is the build's.
abbrev pub banner : List ℕ → Call
banner version = record {
  fmt = codes "VegaOS v%s - Copyright (c) 2023 Ian Marco Moffett\n";
  args = str version ∷ [];
}

abbrev pub announce : List ℕ → Pmm → Pmm
announce version p = record p { log = p.log ++ banner version ∷ [] }

-- `_start` up to its endless loop, with the boot loader's answer to the request for a memory map.
unfoldable pub start :
    Window → Arch → Addresses → List ℕ → Option (List Entry) → Machine → Outcome Machine
start w arch addresses version response m = do
  pmm ← pmm_init w response (announce version m.pmm)
  ok (arch_init arch addresses (record m { pmm = pmm }))

abbrev pub kern_panic : List ℕ
kern_panic =
    color_code b'2'
    ++ codes "["
    ++ color_code b'1'
    ++ codes " KPANIC"
    ++ color_code b'2'
    ++ codes " ]"
    ++ color_code b'0'
    ++ codes " "

-- What panic prints.
unfoldable pub panic_prints : VaList → Call → Printer → Outcome Printer
panic_prints va call s = do
  s ← printk va (record { fmt = kern_panic; args = [] }) s
  vprintk va call.fmt call.args s

-- panic on a platform, from a state of its processor: what is printed, and the processor stopped.
unfoldable pub panic : (p : Pal) → VaList → Call → Printer → p.Core → Outcome (Printer × p.Core)
panic p va call s core = do s ← panic_prints va call s; ok (s, stop p core)
