-- ===== src/Kstd/Print/Vprintf.antt =====
-- The whole of `__vprintf`.
use twos.Base.{
  ℕ, ◌+◌, ◌<◌, ◌≡◌, ◌≢◌, ◌∙◌, refl, sym, ap, subst, ◌==◌, false, Option, some, List, [], ◌∷◌, ◌++◌,
  length, u64, arith,
}
use mathlib.Core.List.{append-nil}
use twos.Kstd.Print.{printf_buf, byte_at, Out, vprintf, vprintf_loop}
use twos.Kstd.Print.NoZero.{nil-NoZero}
use twos.Kstd.Print.Pieces.{
  Piece, plain, decimal, hex, long_decimal, long_hex, char, string, IsPlain, format_of, args_of,
  text_of, Takes,
}
use twos.Kstd.Print.Format.{Stands, Stands-whole, first_byte}
use twos.Kstd.Print.Loop.{finish, finish_lem}

-- The format of a piece starts with a byte that is not zero.
format_of-head :
    (p : Piece) (ps : List Piece)
    → IsPlain (p ∷ ps)
    → (ch : ℕ) × (rest : List ℕ) × (format_of (p ∷ ps) ≡ ch ∷ rest) × (ch ≢ 0)
unfolding IsPlain format_of
format_of-head (plain ch) ps (pos, ne, h) = (ch, format_of ps, refl, pos)
format_of-head (decimal v) ps h = (b'%', b'i' ∷ format_of ps, refl, omega arith)
format_of-head (hex v) ps h = (b'%', b'x' ∷ format_of ps, refl, omega arith)
format_of-head (long_decimal v) ps h = (b'%', b'l' ∷ b'u' ∷ format_of ps, refl, omega arith)
format_of-head (long_hex v) ps h = (b'%', b'l' ∷ b'x' ∷ format_of ps, refl, omega arith)
format_of-head (char v) ps h = (b'%', b'c' ∷ format_of ps, refl, omega arith)
format_of-head (string t) ps (nt, h) = (b'%', b's' ∷ format_of ps, refl, omega arith)

module _ {S : Type 0} {print : List ℕ → S → Option (ℕ × S)} (w : Takes print) where
  -- A format of plain bytes and conversions, shorter than the buffer, prints its text into an output
  -- that has room for it, and the count returned is the text's length.
  pub vprintf_lem :
      (ps : List Piece) (s : S) (n : ℕ)
      → IsPlain ps
      → length (format_of ps) < printf_buf
      → w.Room s (length (text_of ps) + n)
      → (s' : S) × (vprintf print (format_of ps) (args_of ps) s
          ≡ some (u64 (length (text_of ps)), s'))
        × (w.view s' ≡ w.view s ++ text_of ps)
        × w.Room s' n
  unfolding vprintf format_of text_of args_of
  vprintf_lem [] s n h fits room =
      (s, refl, sym (append-nil (w.view s)), subst (w.Room s) (omega arith) room)
  vprintf_lem (p ∷ ps) s n h fits room =
      let (ch, rest, head, ne) = format_of-head p ps h in
      let fmt = format_of (p ∷ ps) in
      let o : Out S = record { total = 0; args = args_of (p ∷ ps); state = s } in
      let (o', goes, done) =
        finish_lem w (p ∷ ps) h (length fmt) fmt 0 [] o n (Stands-whole fmt) (omega (arith, fits))
          nil-NoZero (omega (arith, fits)) (omega arith) refl room in
      let starts : byte_at fmt 0 ≡ some ch =
        first_byte (subst (Stands fmt 0) head (Stands-whole fmt)) in
      let going : (ch == 0) ≡ false = ground (arith, ne) in
      let long_enough : (length fmt == 0) ≡ false = rw head (ground arith) in
      let step : finish w (length fmt) fmt 0 [] o ≡ vprintf_loop print (length fmt) fmt 0 [] o =
        rw starts (rw going refl) in
      let loops : vprintf_loop print (length fmt) fmt 0 [] o ≡ some o' = sym step ∙ goes in
      (
        o'.state,
        rw long_enough (rw loops (ap (λ t. some (t, o'.state)) (done.counted ∙ omega arith))),
        done.written,
        done.room,
      )
