-- ===== src/Kstd/Print/Append.antt =====
-- What `__sprint` leaves in the buffer.
use twos.Base.{
  ℕ, zero, suc, ◌+◌, ◌-◌, ◌^◌, ◌≤◌, ◌<◌, ◌≡◌, ◌≢◌, ◌⊎◌, ◌∙◌, refl, sym, ap, ◌==◌, ◌||◌, ltb,
  if◌then◌else◌, false, some, min, Memory, update, update_ne, update_self, u32, u64, arith,
}
use native.Mathlib.Decide.{dec_lt}
use twos.Kstd.Copy.{memcpy, strnlen, strncpy, strncat}
use twos.Kstd.Copy.Laws.{IsText, memcpy_at, memcpy_outside, strlen_lem}
use twos.Kstd.Print.Sprint.{max_add, sprint}

-- A string of at least `max` bytes is measured as `max`.
strnlen_lem :
    (max str k : ℕ) (mem : Memory) → IsText mem str k → max ≤ k → strnlen max str mem ≡ max
unfolding strnlen
strnlen_lem zero str k mem t h = refl
strnlen_lem (suc max) str zero mem t h = elim h [ ]
strnlen_lem (suc max) str (suc k) mem t h =
    let start : (mem str == 0) ≡ false =
      ground (arith, t.body 0, ap mem {x = str + 0} {y = str} (omega arith)) in
    let rest : IsText mem (str + 1) k = record {
      body = λ i l z. t.body (suc i) (omega (arith, l)) (ap mem (omega arith) ∙ z);
      ends = ap mem (omega arith) ∙ t.ends;
    } in
    rw start (ap suc (strnlen_lem max (str + 1) k mem rest (omega (arith, h))))

module _ (fuel str buf n k a : ℕ) (mem : Memory) (t : IsText mem buf n) (u : IsText mem str k)
    (part : a ≤ k) (hn : n + k < fuel) (small : n + k < 2 ^ 32)
    (apart : (buf + n + a < str) ⊎ (str + k < buf)) where
  -- `strncat` of no more than the string has: the bytes behind the first string, and a zero.
  abbrev pub joined : Memory
  joined = update (memcpy a (buf + n) str mem) (buf + n + a) 0

  strncat_lem : strncat fuel buf str a mem ≡ some joined
  unfolding strncat strncpy
  strncat_lem =
      let len1 : u32 n ≡ n = omega (arith, small) in
      let len2 : ltb (u32 k) a ≡ false = ground (arith, small, part) in
      let measured = strnlen_lem a str k mem u part in
      let full : ltb a a ≡ false = ground arith in
      rw (strlen_lem fuel buf n mem t (omega (arith, hn))) (
        rw (strlen_lem fuel str k mem u (omega (arith, hn)))
          (rw len2 (rw len1 (rw measured (rw full refl)))))

  pub joined_first : (i : ℕ) → i < n → joined (buf + i) ≡ mem (buf + i)
  joined_first i l =
      update_ne (memcpy a (buf + n) str mem) (buf + n + a) (buf + i) 0 (omega (arith, l))
      ∙ memcpy_outside a (buf + n) str mem (buf + i) (omega (arith, l))

  pub joined_second : (i : ℕ) → i < a → joined (buf + n + i) ≡ mem (str + i)
  joined_second i l =
      update_ne (memcpy a (buf + n) str mem) (buf + n + a) (buf + n + i) 0 (omega (arith, l))
      ∙ memcpy_at a (buf + n) str mem i (omega (arith, apart, part)) l

  pub joined_end : joined (buf + n + a) ≡ 0
  joined_end = update_self (memcpy a (buf + n) str mem) (buf + n + a) (buf + n + a) 0 refl

  pub joined-IsText : IsText joined buf (n + a)
  joined-IsText = record {
    body = λ i l z. elim (dec_lt i n) [
      | yes lt ↦ t.body i lt (sym (joined_first i lt) ∙ z)
      | no ge ↦ u.body (i - n) (omega arith) (
          sym (joined_second (i - n) (omega arith))
          ∙ ap joined {x = buf + n + (i - n)} {y = buf + i} (omega arith)
          ∙ z)
    ];
    ends = ap joined {x = buf + (n + a)} {y = buf + n + a} (omega arith) ∙ joined_end;
  }

  pub joined_outside : (b : ℕ) → (b < buf + n) ⊎ (buf + n + a < b) → joined b ≡ mem b
  joined_outside b h =
      update_ne (memcpy a (buf + n) str mem) (buf + n + a) b 0 (omega (arith, h))
      ∙ memcpy_outside a (buf + n) str mem b (omega (arith, h))

-- For a string that does not overlap the buffer, and a text in the buffer no longer than its size:
-- `__sprint` puts as many bytes behind the text as the size leaves room for, and a zero behind them,
-- returns their number, and changes no other byte. A string that is cut has its zero at the size, one
-- byte past the buffer.
pub sprint_lem :
    (fuel str buf max_len n k : ℕ) (mem : Memory)
    → IsText mem buf n
    → IsText mem str k
    → n + k < fuel
    → n + k < 2 ^ 32
    → (buf + n + k < str) ⊎ (str + k < buf)
    → buf ≢ 0
    → max_len ≢ 0
    → n ≤ max_len
    → let a = max_add max_len n k in
      (mem' : Memory) × (sprint fuel str buf max_len mem ≡ some (a, mem'))
      × (a ≡ min k (max_len - n))
      × IsText mem' buf (n + a)
      × ((i : ℕ) → i < n → mem' (buf + i) ≡ mem (buf + i))
      × ((i : ℕ) → i < a → mem' (buf + n + i) ≡ mem (str + i))
      × ((b : ℕ) → (b < buf + n) ⊎ (buf + n + a < b) → mem' b ≡ mem b)
unfolding sprint
sprint_lem fuel str buf max_len n k mem t u hn small apart not_null some_room fits =
    let a = max_add max_len n k in
    let least : a ≡ min k (max_len - n) = ground arith in
    let part : a ≤ k = omega (arith, least) in
    let clear : (buf + n + a < str) ⊎ (str + k < buf) = omega (arith, apart, part) in
    let guard : ((buf == 0) || (max_len == 0)) ≡ false = ground (arith, not_null, some_room) in
    let text = joined-IsText fuel str buf n k a mem t u part hn small clear in
    let appends = strncat_lem fuel str buf n k a mem t u part hn small clear in
    let after =
      strlen_lem fuel buf (n + a) (joined fuel str buf n k a mem t u part hn small clear) text
        (omega (arith, hn, part)) in
    let count : (if n + a == 0 then 0 else u64 (n + a + 2 ^ 64 - n)) ≡ a =
      ground (arith, small, part) in
    (
      joined fuel str buf n k a mem t u part hn small clear,
      rw guard (
          rw (strlen_lem fuel buf n mem t (omega (arith, hn))) (
            rw (strlen_lem fuel str k mem u (omega (arith, hn))) (
              rw appends (
                rw after (
                  ap (λ c. some (c, joined fuel str buf n k a mem t u part hn small clear))
                    count))))),
      least,
      text,
      joined_first fuel str buf n k a mem t u part hn small clear,
      joined_second fuel str buf n k a mem t u part hn small clear,
      joined_outside fuel str buf n k a mem t u part hn small clear,
    )
