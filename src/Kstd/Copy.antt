-- ===== src/Kstd/Copy.antt =====
-- src/kstdlib/memory.c, and the functions of src/kstdlib/string.c that measure or copy. Strings
-- stand in byte-addressed memory and end at a zero byte. Addresses do not wrap here.
-- The pointer that a copy returns is its argument, or null for a null argument, and is left out.
pub mod Laws
use twos.Base.{
  ℕ, zero, suc, ◌+◌, ◌-◌, Bool, true, false, ◌==◌, ltb, if◌then◌else◌, Option, none, some, ◌>>=◌,
  Memory, update, u32,
}

unfoldable pub memcpy : ℕ → ℕ → ℕ → Memory → Memory
memcpy zero dest src mem = mem
memcpy (suc n) dest src mem = memcpy n (dest + 1) (src + 1) (update mem dest (mem src))

unfoldable pub memset : ℕ → ℕ → ℕ → Memory → Memory
memset zero dest val mem = mem
memset (suc n) dest val mem = memset n (dest + 1) val (update mem dest val)

-- `while (str[size] != 0) size++`; `none` where no zero byte comes within the fuel.
unfoldable pub strlen : ℕ → ℕ → Memory → Option ℕ
strlen zero str mem = none
strlen (suc fuel) str mem =
    let rest = strlen fuel (str + 1) mem >>= λ n. some (suc n) in
    if mem str == 0 then some 0 else rest

unfoldable pub strnlen : ℕ → ℕ → Memory → ℕ
strnlen zero str mem = 0
strnlen (suc max) str mem =
    let rest = suc (strnlen max (str + 1) mem) in if mem str == 0 then 0 else rest

module _ (fuel : ℕ) where
  unfoldable pub strcpy : ℕ → ℕ → Memory → Option Memory
  strcpy dest src mem =
      if dest == 0
      then some mem
      else if src == 0
      then some mem
      else strlen fuel src mem >>= λ n. some (memcpy (n + 1) dest src mem)

  unfoldable pub strncpy : ℕ → ℕ → ℕ → Memory → Memory
  strncpy dest src max mem =
      let len_src = strnlen max src mem in
      let copied = memcpy len_src dest src mem in
      if ltb len_src max
      then update (memset (max - len_src) (dest + len_src) 0 copied) (dest + len_src) 0
      else copied

  unfoldable pub strcat : ℕ → ℕ → Memory → Option Memory
  strcat dest src mem =
      if dest == 0
      then some mem
      else if src == 0
      then some mem
      else strlen fuel dest mem >>= λ dest_len. strcpy (dest + dest_len) src mem

  -- The lengths are cut to `unsigned`.
  unfoldable pub strncat : ℕ → ℕ → ℕ → Memory → Option Memory
  strncat s1 s2 n mem = strlen fuel s1 mem >>= λ l₁. strlen fuel s2 mem >>= λ l₂.
      let len1 = u32 l₁ in
      if ltb (u32 l₂) n
      then strcpy (s1 + len1) s2 mem
      else some (update (strncpy (s1 + len1) s2 n mem) (s1 + len1 + n) 0)
