-- ===== src/Tests/Boot.antt =====
-- The command line of src/boot/cmdline.c on a small text.
use twos.Base.{
  ◌==◌, if◌then◌else◌, get_or, Memory, ℕ, ◌<◌, ◌≡◌, ◌≢◌, ◌⊎◌, true, false, List, [], ◌∷◌, arith,
}
use twos.Boot.Cmdline.{
  cmdline_no_arg, Cmdline, cmdline_parse, arg_text, cmdline_hasarg, cmdline_getarg,
}
use twos.Kstd.Compare.Laws.{AllBytes}
use twos.Boot.Cmdline.Laws.{IsParsed, cmdline_parse-IsParsed, cmdline_getarg_lem}

-- "a=1 b=0" and a zero.
abbrev text : Memory
text b = get_or (b'a' ∷ b'=' ∷ b'1' ∷ b' ' ∷ b'b' ∷ b'=' ∷ b'0' ∷ []) b 0

cmdline_parse_example : IsParsed (cmdline_parse 8 text)
cmdline_parse_example = cmdline_parse-IsParsed 8 text

-- What the parser makes of it.
abbrev two_args : Cmdline
two_args = record {
  args = λ b. if b == 0 then b'a' else if b == 16 then b'b' else 0;
  vals = λ i. if i == 0 then 1 else 0;
  num_args = 2;
}

abbrev arg_b : List ℕ
arg_b = b'b' ∷ []

arg_b-AllBytes : AllBytes arg_b
arg_b-AllBytes = (omega arith, omega arith, tt)

two_args-bytes : (b : ℕ) → two_args.args b < 256
two_args-bytes b = ground arith

cmdline_getarg_example :
    ((cmdline_hasarg arg_b two_args ≡ true)
      × ((k : ℕ) × (k < 2)
          × (arg_b ≡ arg_text two_args k)
          × ((j : ℕ) → j < k → arg_b ≢ arg_text two_args j)
          × (cmdline_getarg arg_b two_args ≡ two_args.vals k)))
    ⊎ ((cmdline_hasarg arg_b two_args ≡ false)
        × ((j : ℕ) → j < 2 → arg_b ≢ arg_text two_args j)
        × (cmdline_getarg arg_b two_args ≡ cmdline_no_arg))
cmdline_getarg_example =
    cmdline_getarg_lem arg_b two_args arg_b-AllBytes two_args-bytes (omega arith)
