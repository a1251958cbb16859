-- ===== src/Kstd/Print/Sprint.antt =====
-- `__sprint`, `snprintf` and `vsnprintf`: output into a buffer in memory.
use twos.Base.{
  ℕ, ◌+◌, ◌-◌, ◌^◌, ◌==◌, ◌||◌, ltb, if◌then◌else◌, Option, some, ◌>>=◌, List, [], ◌∷◌, Memory,
  update, u32, u64,
}
use twos.Kstd.Copy.{strlen, strncat, memset}
use twos.Kstd.Print.{Arg, vprintf}

-- A string constant or local array of the caller's: the text and its zero at an address.
unfoldable pub write_text : ℕ → List ℕ → Memory → Memory
write_text a [] mem = update mem a 0
write_text a (c ∷ cs) mem = write_text (a + 1) cs (update mem a c)

-- How much of a string of `add_len` bytes goes behind `cur_len` in a buffer.
abbrev pub max_add : ℕ → ℕ → ℕ → ℕ
max_add max_len cur_len add_len =
    let room = if ltb cur_len max_len then max_len - cur_len else 0 in
    if ltb add_len room then add_len else room

-- The strings are shorter than the fuel.
module _ (fuel : ℕ) where
  unfoldable pub sprint : ℕ → ℕ → ℕ → Memory → Option (ℕ × Memory)
  sprint str buf max_len mem =
      let appended = strlen fuel buf mem >>= λ cur_len. strlen fuel str mem >>= λ add_len.
      strncat fuel buf str (max_add max_len cur_len add_len) mem >>= λ mem'.
      strlen fuel buf mem' >>= λ catlen.
      some (if catlen == 0 then 0 else u64 (catlen + 2 ^ 64 - cur_len), mem') in
      if (buf == 0) || (max_len == 0) then some (0, mem) else appended

  -- `__sprint` on a text, which its caller has at `scratch`.
  abbrev pub sprint_text : ℕ → ℕ → ℕ → List ℕ → Memory → Option (ℕ × Memory)
  sprint_text scratch buf max_len t mem = sprint scratch buf max_len (write_text scratch t mem)

  unfoldable pub vsnprintf : ℕ → ℕ → ℕ → List ℕ → List Arg → Memory → Option (ℕ × Memory)
  vsnprintf scratch s n fmt args mem =
      vprintf (sprint_text scratch s n) fmt args (memset n s 0 mem) >>= λ (ret, mem').
      some (u32 ret, mem')

  -- The same with an argument list of its own.
  unfoldable pub snprintf : ℕ → ℕ → ℕ → List ℕ → List Arg → Memory → Option (ℕ × Memory)
  snprintf scratch s n fmt args mem =
      vprintf (sprint_text scratch s n) fmt args (memset n s 0 mem) >>= λ (ret, mem').
      some (u32 ret, mem')
