-- ===== src/Kstd/Print/Convert.antt =====
-- What the conversions write, and a round of the loop.
use twos.Base.{
  ℕ, ◌+◌, ◌≤◌, ◌<◌, ◌≡◌, ◌≢◌, ◌∙◌, refl, ap, ◌==◌, ltb, leb, true, false, Option, some, List, [],
  ◌∷◌, ◌++◌, length, length-append, u8, u32, u64, arith,
}
use mathlib.Core.List.{append_assoc}
use twos.Kstd.Number.{ltoa}
use twos.Kstd.Print.{
  printf_buf, Arg, va_int, va_long, va_text, byte_at, itoa_text, below_58, Out, emit, convert_int,
  convert_long, convert_char, convert_text, convert, round, int, long, text,
}
use twos.Kstd.Print.NoZero.{itoa_text-NoZero, ltoa-NoZero, char_text-NoZero}
use twos.Kstd.Print.Pieces.{NoZero, char_text, Takes}
use twos.Kstd.Print.Format.{find_letter_lem}

module _ {S : Type 0} {print : List ℕ → S → Option (ℕ × S)} (w : Takes print) where
  -- What a part of the work leaves: `t` is written, `args` are left, there is room for `n` more.
  pub record Prints (o o' : Out S) (t : List ℕ) (args : List Arg) (n : ℕ) : Type 0 where
    pub written : w.view o'.state ≡ w.view o.state ++ t
    pub counted : o'.total ≡ u64 (o.total + length t)
    pub left : o'.args ≡ args
    pub room : w.Room o'.state n

  pub Prints-trans :
      {o o₁ o₂ : Out S} {t t' : List ℕ} {args args' : List Arg} {n n' : ℕ}
      → Prints o o₁ t args n
      → Prints o₁ o₂ t' args' n'
      → Prints o o₂ (t ++ t') args' n'
  Prints-trans {o} {o₁} {o₂} {t} {t'} a b = record {
    written = b.written ∙ ap (λ v. v ++ t') a.written ∙ append_assoc (w.view o.state) t t';
    counted = omega (arith, a.counted, b.counted, length-append t t');
    left = b.left;
    room = b.room;
  }

  pub emit_lem :
      (t : List ℕ) (n : ℕ) (o : Out S)
      → NoZero t
      → w.Room o.state (length t + n)
      → (o' : Out S) × (emit print t o ≡ some o') × Prints o o' t o.args n
  unfolding emit
  emit_lem t n o nz room =
      let (s', prints, written, room') = w.takes t n o.state nz room in
      (
        record o { total = u64 (o.total + length t); state = s' },
        rw prints refl,
        record { written = written; counted = refl; left = refl; room = room' },
      )

  -- A conversion that is one text, once its argument is taken.
  taking_lem :
      (t : List ℕ) (args' : List Arg) (n : ℕ) (o : Out S)
      → NoZero t
      → w.Room o.state (length t + n)
      → (o' : Out S) × (emit print t (record o { args = args' }) ≡ some o') × Prints o o' t args' n
  taking_lem t args' n o nz room =
      let (o', prints, p) = emit_lem t n (record o { args = args' }) nz room in
      (
        o',
        prints,
        record { written = p.written; counted = p.counted; left = p.left; room = p.room },
      )

  pub convert_int_lem :
      (base v : ℕ) (args' : List Arg) (n : ℕ) (o : Out S)
      → o.args ≡ int v ∷ args'
      → w.Room o.state (length (itoa_text (u32 v) base) + n)
      → (o' : Out S) × (convert_int print base o ≡ some o')
        × Prints o o' (itoa_text (u32 v) base) args' n
  unfolding convert_int va_int
  convert_int_lem base v args' n o e room =
      let (o', prints, p) =
        taking_lem (itoa_text (u32 v) base) args' n o (itoa_text-NoZero (u32 v) base) room in
      let fetch : va_int o.args ≡ some (u32 v, args') = ap va_int e in (o', rw fetch prints, p)

  pub convert_long_lem :
      (base v : ℕ) (args' : List Arg) (n : ℕ) (o : Out S)
      → o.args ≡ long v ∷ args'
      → w.Room o.state (length (ltoa (u64 v) base) + n)
      → (o' : Out S) × (convert_long print base o ≡ some o')
        × Prints o o' (ltoa (u64 v) base) args' n
  unfolding convert_long va_long
  convert_long_lem base v args' n o e room =
      let (o', prints, p) =
        taking_lem (ltoa (u64 v) base) args' n o (ltoa-NoZero (u64 v) base) room in
      let fetch : va_long o.args ≡ some (u64 v, args') = ap va_long e in (o', rw fetch prints, p)

  pub convert_char_lem :
      (v : ℕ) (args' : List Arg) (n : ℕ) (o : Out S)
      → o.args ≡ int v ∷ args'
      → w.Room o.state (length (char_text (u8 (u32 v))) + n)
      → (o' : Out S) × (convert_char print o ≡ some o')
        × Prints o o' (char_text (u8 (u32 v))) args' n
  unfolding convert_char va_int
  convert_char_lem v args' n o e room =
      let (o', prints, p) =
        taking_lem (char_text (u8 (u32 v))) args' n o (char_text-NoZero (u8 (u32 v))) room in
      let fetch : va_int o.args ≡ some (u32 v, args') = ap va_int e in (o', rw fetch prints, p)

  pub convert_text_lem :
      (t : List ℕ) (args' : List Arg) (n : ℕ) (o : Out S)
      → NoZero t
      → o.args ≡ text t ∷ args'
      → w.Room o.state (length t + n)
      → (o' : Out S) × (convert_text print o ≡ some o') × Prints o o' t args' n
  unfolding convert_text va_text
  convert_text_lem t args' n o nz e room =
      let (o', prints, p) = taking_lem t args' n o nz room in
      let fetch : va_text o.args ≡ some (t, args') = ap va_text e in (o', rw fetch prints, p)

  -- A round at a percent sign with its letter behind it.
  pub round_conversion :
      (fmt : List ℕ) (c : ℕ) (buf : List ℕ) (ch len : ℕ) (o o₁ o₂ : Out S)
      → 1 ≤ length fmt
      → length fmt ≤ printf_buf
      → byte_at fmt c ≡ some b'%'
      → byte_at fmt (c + 1) ≡ some ch
      → below_58 ch ≡ false
      → emit print buf o ≡ some o₁
      → convert print fmt ch (c + 1) 1 o₁ ≡ some (len, o₂)
      → round print fmt c buf o ≡ some (c + len + 1, [], o₂)
  unfolding round
  round_conversion fmt c buf ch len o o₁ o₂ some_bytes fits percent letter high flushes converts =
      let room : leb (length fmt) printf_buf ≡ true = ground (arith, fits) in
      let finds =
        find_letter_lem (length fmt + 1) fmt c ch (omega (arith, some_bytes)) percent letter high in
      rw percent (rw room (rw flushes (rw finds (rw converts refl))))

  pub round_plain :
      (fmt : List ℕ) (c : ℕ) (buf : List ℕ) (ch : ℕ) (o : Out S)
      → byte_at fmt c ≡ some ch
      → ch ≢ b'%'
      → length buf + 1 < printf_buf
      → round print fmt c buf o ≡ some (c + 1, buf ++ ch ∷ [], o)
  unfolding round
  round_plain fmt c buf ch o here ne h =
      let other : (ch == b'%') ≡ false = ground (arith, ne) in
      let room : ltb (length buf + 1) printf_buf ≡ true = ground (arith, h) in
      rw here (rw other (rw room refl))
