-- ===== src/Kstd/Print/Snprintf.antt =====
-- Formatted output into a buffer that has room for it.
use twos.Base.{
  ℕ, zero, suc, ◌+◌, ◌-◌, ◌^◌, ◌≤◌, ◌<◌, ◌≡◌, ◌≢◌, ◌⊎◌, inl, ◌∙◌, sym, ap, some, List, [], ◌++◌,
  length, length-append, get_or, Memory, update, update_self, arith,
}
use native.Mathlib.Decide.{dec_lt}
use twos.Acpi.{string_at}
use twos.Kstd.Copy.Laws.{memset_outside}
use twos.Kstd.Copy.{memset}
use twos.Kstd.Print.{printf_buf}
use twos.Kstd.Print.Pieces.{NoZero, Piece, IsPlain, format_of, args_of, text_of, Takes}
use twos.Kstd.Print.NoZero.{append-NoZero, nil-NoZero}
use twos.Kstd.Print.Sprint.{write_text, max_add, sprint_text, vsnprintf}
use twos.Kstd.Print.Held.{
  Holds, Holds-IsText, string_at-Holds, write_text_outside, write_text_at, get_or-append_left,
  get_or-append_right, get_or-end,
}
use twos.Kstd.Print.Append.{sprint_lem}
use twos.Kstd.Print.Vprintf.{vprintf_lem}

write_text-Holds : (a : ℕ) (t : List ℕ) (mem : Memory) → NoZero t → Holds (write_text a t mem) a t
write_text-Holds a t mem nz = record {
  nonzero = nz;
  bytes = λ i l. write_text_at a t mem i (omega (arith, l));
  ends = write_text_at a t mem (length t) (omega arith) ∙ get_or-end t;
}

Holds-kept :
    (a : ℕ) (t : List ℕ) (mem mem' : Memory)
    → ((b : ℕ) → a ≤ b → b ≤ a + length t → mem' b ≡ mem b)
    → Holds mem a t
    → Holds mem' a t
Holds-kept a t mem mem' same h = record {
  nonzero = h.nonzero;
  bytes = λ i l. same (a + i) (omega arith) (omega (arith, l)) ∙ h.bytes i l;
  ends = same (a + length t) (omega arith) (omega arith) ∙ h.ends;
}

memset-Holds : (n s : ℕ) (mem : Memory) → 0 < n → Holds (memset n s 0 mem) s []
unfolding memset
memset-Holds zero s mem h = elim h [ ]
memset-Holds (suc n) s mem h = record {
  nonzero = nil-NoZero;
  bytes = λ i l. elim l [ ];
  ends =
      memset_outside n (s + 1) 0 (update mem s 0) (s + 0) (inl (omega arith))
      ∙ update_self mem s (s + 0) 0 (omega arith);
}

module _ (fuel scratch buf max_len : ℕ) (enough : max_len < fuel) (small : max_len < 2 ^ 31)
    (apart : (buf + max_len ≤ scratch) ⊎ (scratch + max_len ≤ buf)) (not_null : buf ≢ 0) where
  -- The text in the buffer leaves room for `n` bytes more and the zero.
  abbrev HasRoom : Memory → ℕ → Type 0
  HasRoom mem n = (v : List ℕ) × Holds mem buf v × (length v + n < max_len)

  sprint_text-takes :
      (t : List ℕ) (n : ℕ) (mem : Memory)
      → NoZero t
      → HasRoom mem (length t + n)
      → (mem' : Memory) × (sprint_text fuel scratch buf max_len t mem ≡ some (length t, mem'))
        × (string_at max_len buf mem' ≡ string_at max_len buf mem ++ t)
        × HasRoom mem' n
  sprint_text-takes t n mem nz (v, held, room) =
      let mem₁ = write_text scratch t mem in
      let kept =
        Holds-kept buf v mem mem₁
          (λ b p q. write_text_outside scratch t mem b (omega (arith, apart, room))) held in
      let given = write_text-Holds scratch t mem nz in
      let (mem', prints, least, text, first, second, outside) =
        sprint_lem fuel scratch buf max_len (length v) (length t) mem₁ (Holds-IsText kept)
          (Holds-IsText given) (omega (arith, room, enough)) (omega (arith, room, small))
          (omega (arith, apart, room)) not_null (omega (arith, room)) (omega (arith, room)) in
      let all : max_add max_len (length v) (length t) ≡ length t = omega (arith, least, room) in
      let held' : Holds mem' buf (v ++ t) = record {
        nonzero = append-NoZero v t held.nonzero nz;
        bytes = λ i l. elim (dec_lt i (length v)) [
          | yes lt ↦ first i lt ∙ kept.bytes i lt ∙ sym (get_or-append_left v t i lt)
          | no ge ↦
              let j = i - length v in
              let l' : j < length t = omega (arith, l, length-append v t, ge) in
              let there : i ≡ length v + j = omega (arith, ge) in
              ap mem' {x = buf + i} {y = buf + length v + j} (omega (arith, ge))
              ∙ second j (omega (arith, l', all))
              ∙ given.bytes j l'
              ∙ sym (ap (λ k. get_or (v ++ t) k 0) there ∙ get_or-append_right v t j)
        ];
        ends =
            ap mem' {x = buf + length (v ++ t)}
              {y = buf + (length v + max_add max_len (length v) (length t))}
              (omega (arith, length-append v t, all))
            ∙ text.ends;
      } in
      let fits : length (v ++ t) < max_len = omega (arith, length-append v t, room) in
      (
        mem',
        prints ∙ ap (λ c. some (c, mem')) all,
        string_at-Holds max_len buf mem' (v ++ t) held' fits
            ∙ sym (ap (λ x. x ++ t) (string_at-Holds max_len buf mem v held (omega (arith, room)))),
        (v ++ t, held', omega (arith, length-append v t, room)),
      )

  abbrev sprint_text-Takes : Takes (sprint_text fuel scratch buf max_len)
  sprint_text-Takes = record {
    view = string_at max_len buf;
    Room = HasRoom;
    takes = sprint_text-takes;
  }

  pub vsnprintf_lem :
      (ps : List Piece) (mem : Memory)
      → IsPlain ps
      → length (format_of ps) < printf_buf
      → length (text_of ps) < max_len
      → (mem' : Memory) × (vsnprintf fuel scratch buf max_len (format_of ps) (args_of ps) mem
          ≡ some (length (text_of ps), mem'))
        × (string_at max_len buf mem' ≡ text_of ps)
  unfolding vsnprintf
  vsnprintf_lem ps mem h short fits =
      let start = memset-Holds max_len buf mem (omega (arith, fits)) in
      let (mem', prints, seen, rest) =
        vprintf_lem sprint_text-Takes ps (memset max_len buf 0 mem) 0 h short
          ([], start, omega (arith, fits)) in
      (
        mem',
        rw prints (ap (λ c. some (c, mem')) (omega (arith, fits, small))),
        seen
            ∙ ap (λ v. v ++ text_of ps)
                (string_at-Holds max_len buf (memset max_len buf 0 mem) [] start
                  (omega (arith, fits))),
      )
