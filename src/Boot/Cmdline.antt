-- ===== src/Boot/Cmdline.antt =====
-- src/boot/cmdline.c: the arguments `key=value` of the command line. The text of the tag stands in
-- memory at an address. A write past one of the buffers, of 64, 32 and 16 bytes, is an overflow.
pub mod Laws
use twos.Base.{
  ℕ, zero, suc, ◌+◌, ◌*◌, ◌-◌, ◌/◌, ◌%◌, ◌^◌, ◌==◌, ◌&&◌, ◌||◌, not, ltb, if◌then◌else◌, Bool, true,
  false, List, [], ◌∷◌, ◌++◌, length, get_or, Memory, update, uint32_max,
}
use twos.Acpi.{string_at}
use twos.Kstd.Compare.{Sign, nil, minus, plus, strcmp}
use twos.Kstd.Number.{atou}

abbrev pub cmdline_max_arg : ℕ
cmdline_max_arg = 16

abbrev pub cmdline_max_arg_len : ℕ
cmdline_max_arg_len = 16

abbrev pub cmdline_no_arg : ℕ
cmdline_no_arg = uint32_max

-- `args` is the array of rows, byte after byte.
pub record Cmdline : Type 0 where
  pub args : Memory
  pub vals : ℕ → ℕ
  pub num_args : ℕ

abbrev pub no_args : Cmdline
no_args = record { args = λ b. 0; vals = λ i. 0; num_args = 0 }

pub data Parsed : Type 0 where
  parsed : Cmdline → Parsed
  overflow : Parsed
  out_of_fuel : Parsed

-- The bytes of a value from `idx` on, up to a space, a zero or the end, and where they end.
unfoldable pub read_value : ℕ → ℕ → ℕ → Memory → List ℕ × ℕ
read_value zero idx stag_len text = ([], idx)
read_value (suc fuel) idx stag_len text =
    let rest = read_value fuel (idx + 1) stag_len text in
    if (text idx == b' ') || (text idx == 0) || not (ltb idx stag_len)
    then ([], idx)
    else (text idx ∷ rest.0, rest.1)

-- The bytes of a list up to a zero.
unfoldable pub up_to_zero : List ℕ → List ℕ
up_to_zero [] = []
up_to_zero (c ∷ cs) = let rest = up_to_zero cs in if c == 0 then [] else c ∷ rest

-- `strncpy(cmdline.args[num_args], buf, 16)`: the rest of the row is zero.
unfoldable pub write_arg : ℕ → List ℕ → Memory → Memory
write_arg row key args b = if b / 16 == row then get_or key (b % 16) 0 else args b

-- The entry for a key and a value.
unfoldable pub add_arg : List ℕ → List ℕ → Cmdline → Cmdline
add_arg buf sval c = record {
  args = write_arg c.num_args (up_to_zero buf) c.args;
  vals = update c.vals c.num_args (atou sval);
  num_args = c.num_args + 1;
}

-- The loop from `idx` on, with the bytes in `buf` so far.
unfoldable pub parse_loop : ℕ → ℕ → List ℕ → ℕ → Memory → Cmdline → Parsed
parse_loop zero idx buf stag_len text c = if ltb idx stag_len then out_of_fuel else parsed c
parse_loop (suc fuel) idx buf stag_len text c =
    let value = read_value stag_len (idx + 1) stag_len text in
    let behind = if text (value.1) == b' ' then value.1 + 1 else value.1 in
    let next =
      parse_loop fuel (behind + 1) (text behind ∷ []) stag_len text (add_arg buf (value.0) c) in
    let plain = parse_loop fuel (idx + 1) (buf ++ text idx ∷ []) stag_len text c in
    if not (ltb idx stag_len)
    then parsed c
    else if text idx == b'='
    then (if ltb (length buf) 64 && ltb (length (value.0)) 32 && ltb c.num_args cmdline_max_arg
        then next
        else overflow)
    else (if ltb (length buf) 64 then plain else overflow)

-- The length of the text is the tag's size without its header, and negative counts as none.
unfoldable pub cmdline_parse : ℕ → Memory → Parsed
cmdline_parse stag_len text = parse_loop stag_len 0 [] stag_len text no_args

-- The bytes of the struct `cmdline`: the rows, the values, of 4 bytes each, and the count, of 8.
abbrev pub struct_byte : Cmdline → Memory
struct_byte c b =
    let value = c.vals ((b - 256) / 4) / 256 ^ ((b - 256) % 4) % 256 in
    let count = c.num_args / 256 ^ (b - 320) % 256 in
    if ltb b 256 then c.args b else if ltb b 320 then value else count

-- The text that starts with a row: a row of 16 bytes without a zero runs on into the next one, and the
-- last row into the values and the count, in which a zero stands at the latest.
abbrev pub arg_text : Cmdline → ℕ → List ℕ
arg_text c i = string_at (328 - 16 * i) (16 * i) (struct_byte c)

abbrev pub is_equal : Sign → Bool
is_equal nil = true
is_equal minus = false
is_equal plus = false

abbrev pub argidx_none : ℕ
argidx_none = 0xff

-- The test of the loop: the first bytes, and then the texts.
abbrev pub is_arg : List ℕ → Cmdline → ℕ → Bool
is_arg arg c i = (get_or arg 0 0 == c.args (16 * i)) && is_equal (strcmp arg (arg_text c i))

unfoldable pub find_arg : ℕ → ℕ → List ℕ → Cmdline → ℕ
find_arg zero i arg c = argidx_none
find_arg (suc left) i arg c =
    let rest = find_arg left (i + 1) arg c in if is_arg arg c i then i else rest

unfoldable pub get_arg_idx : List ℕ → Cmdline → ℕ
get_arg_idx arg c = find_arg c.num_args 0 arg c

unfoldable pub cmdline_hasarg : List ℕ → Cmdline → Bool
cmdline_hasarg arg c = not (get_arg_idx arg c == argidx_none)

unfoldable pub cmdline_getarg : List ℕ → Cmdline → ℕ
cmdline_getarg arg c =
    let idx = get_arg_idx arg c in if idx == argidx_none then cmdline_no_arg else c.vals idx

unfoldable pub cmdline_is_true : List ℕ → Cmdline → Bool
cmdline_is_true arg c =
    let val = cmdline_getarg arg c in not (val == 0) && not (val == cmdline_no_arg)
