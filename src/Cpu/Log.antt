-- ===== src/Cpu/Log.antt =====
-- What a function of the kernel prints with `debugf`, as a list of lines: a label, which stands for the
-- format without its indentation and conversion, and the numbers handed over.
use Prim.Native.String.{String}
use twos.Base.{ℕ, List}

pub record Line : Type 0 where
  pub label : String
  pub values : List ℕ

abbrev pub line : String → List ℕ → Line
line label values = record { label = label; values = values }
