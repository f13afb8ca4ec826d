-- ===== src/Log.antt =====
-- Calls of printk and panic as values: a format with its arguments (include/sys/printk.h). A
-- component hands these out in order, and the console prints them.
use Prim.Native.Char.{code}
use Prim.Native.String.{String}
use vega_os.Base.{ℕ, List, [], ◌∷◌, ◌++◌}

-- The bytes of a text, less its terminator.
abbrev pub codes : String → List ℕ
codes String.[] = []
codes (String.◌∷◌ c s) = code c ∷ codes s

-- An argument as `va_arg` hands it out.
pub data Arg : Type 0 where
  str : List ℕ → Arg
  num : ℕ → Arg

pub record Call : Type 0 where
  pub fmt : List ℕ
  pub args : List Arg

-- The two bytes that switch the colour: `\001` and a digit.
abbrev pub color_code : ℕ → List ℕ
color_code digit = 1 ∷ digit ∷ []

abbrev pub kern_info : List ℕ
kern_info =
    color_code b'2'
    ++ codes "["
    ++ color_code b'3'
    ++ codes " INFO"
    ++ color_code b'2'
    ++ codes " ]"
    ++ color_code b'0'
    ++ codes " "

abbrev pub kern_warning : List ℕ
kern_warning =
    color_code b'2'
    ++ codes "["
    ++ color_code b'5'
    ++ codes " WARN"
    ++ color_code b'2'
    ++ codes " ]"
    ++ color_code b'0'
    ++ codes " "

-- The two calls that the macro `kinfo` makes in a module of this name.
unfoldable pub kinfo : List ℕ → List ℕ → List Arg → List Call
kinfo this_module fmt args =
    record { fmt = kern_info ++ color_code b'4' ++ codes "%s: "; args = str this_module ∷ [] }
    ∷ record { fmt = fmt; args = args }
    ∷ []

-- Those of `kwarn`, which no file of the kernel uses.
unfoldable pub kwarn : List ℕ → List ℕ → List Arg → List Call
kwarn this_module fmt args =
    record { fmt = kern_warning ++ color_code b'4' ++ codes "%s: "; args = str this_module ∷ [] }
    ∷ record { fmt = fmt; args = args }
    ∷ []
