-- ===== src/Kstd/Print/Loop.antt =====
-- The loop of `__vprintf` over a format of pieces.
use twos.Base.{
  ℕ, zero, suc, ◌+◌, ◌≤◌, ◌<◌, ◌≡◌, ◌≢◌, ◌∙◌, refl, sym, ap, subst, ◌==◌, if◌then◌else◌, false,
  Option, some, ◌>>=◌, List, [], ◌∷◌, ◌++◌, length, length-append, u8, u32, u64, arith,
}
use mathlib.Core.List.{append-nil, append_assoc}
use native.Mathlib.Nat.{lt_irrefl}
use twos.Kstd.Number.{ltoa}
use twos.Kstd.Print.{
  Arg, int, long, text, printf_buf, itoa_text, byte_at, below_58, Out, emit, convert, convert_l,
  round, vprintf_loop,
}
use twos.Kstd.Print.NoZero.{append-NoZero, nil-NoZero, singleton-NoZero, hex_prefix-NoZero}
use twos.Kstd.Print.Pieces.{
  NoZero, Piece, plain, decimal, hex, long_decimal, long_hex, char, string, IsPlain, format_of,
  args_of, text_of, char_text, hex_prefix, Takes,
}
use twos.Kstd.Print.Format.{Stands, Stands-next, Stands-skip, first_byte, last_byte}
use twos.Kstd.Print.Convert.{
  Prints, Prints-trans, emit_lem, round_conversion, round_plain, convert_int_lem, convert_long_lem,
  convert_char_lem, convert_text_lem,
}

module _ {S : Type 0} {print : List ℕ → S → Option (ℕ × S)} (w : Takes print) where
  -- What follows a round.
  abbrev pub finish : ℕ → List ℕ → ℕ → List ℕ → Out S → Option (Out S)
  finish fuel fmt c buf o = byte_at fmt c >>= λ ch.
      let next = vprintf_loop print fuel fmt c buf o in if ch == 0 then emit print buf o else next

  -- A round, and what follows it.
  finish_step :
      (fuel : ℕ) (fmt : List ℕ) (c ch : ℕ) (buf : List ℕ) (o : Out S) (c' : ℕ) (buf' : List ℕ)
      (o' : Out S)
      → byte_at fmt c ≡ some ch
      → ch ≢ 0
      → round print fmt c buf o ≡ some (c', buf', o')
      → finish (suc fuel) fmt c buf o ≡ finish fuel fmt c' buf' o'
  unfolding vprintf_loop
  finish_step fuel fmt c ch buf o c' buf' o' here ne goes =
      let going : (ch == 0) ≡ false = ground (arith, ne) in rw here (rw going (rw goes refl))

  -- The rest of the format is written behind what is in the buffer.
  abbrev pub Finishes : List Piece → Type 0
  Finishes ps =
      (fuel : ℕ) (fmt : List ℕ) (c : ℕ) (buf : List ℕ) (o : Out S) (n : ℕ)
      → Stands fmt c (format_of ps)
      → length fmt ≤ printf_buf
      → NoZero buf
      → length buf + length (format_of ps) < printf_buf
      → length (format_of ps) ≤ fuel
      → o.args ≡ args_of ps
      → w.Room o.state (length (buf ++ text_of ps) + n)
      → (o' : Out S) × (finish fuel fmt c buf o ≡ some o') × Prints w o o' (buf ++ text_of ps) [] n

  -- A conversion, given what it does with the letter behind the percent sign.
  finish_conversion :
      (ps : List Piece) (t : List ℕ) (args : List Arg) (letters : List ℕ) (ch len : ℕ)
      → Finishes ps
      → below_58 ch ≡ false
      → ((fmt : List ℕ) (c : ℕ) (o : Out S) (n : ℕ)
          → Stands fmt c (b'%' ∷ ch ∷ letters ++ format_of ps)
          → o.args ≡ args
          → w.Room o.state (length t + n)
          → (o' : Out S) × (convert print fmt ch (c + 1) 1 o ≡ some (len, o'))
            × Prints w o o' t (args_of ps) n)
      → len ≡ length letters + 1
      → (fuel : ℕ) (fmt : List ℕ) (c : ℕ) (buf : List ℕ) (o : Out S) (n : ℕ)
      → Stands fmt c (b'%' ∷ ch ∷ letters ++ format_of ps)
      → length fmt ≤ printf_buf
      → NoZero buf
      → length (letters ++ format_of ps) < fuel
      → o.args ≡ args
      → w.Room o.state (length (buf ++ (t ++ text_of ps)) + n)
      → (o' : Out S) × (finish fuel fmt c buf o ≡ some o')
        × Prints w o o' (buf ++ (t ++ text_of ps)) [] n
  finish_conversion ps t args letters ch len rest high conv e zero fmt c buf o n st fits nz enough
        eq room =
      elim enough [ ]
  finish_conversion ps t args letters ch len rest high conv e (suc fuel) fmt c buf o n st fits nz
        enough eq room =
      let sizes : length (buf ++ (t ++ text_of ps)) + n
          ≡ length buf + (length t + (length (text_of ps) + n)) =
        omega (arith, length-append buf (t ++ text_of ps), length-append t (text_of ps)) in
      let (o₁, flushes, p₁) =
        emit_lem w buf (length t + (length (text_of ps) + n)) o nz
          (subst (w.Room o.state) sizes room) in
      let (o₂, converts, p₂) = conv fmt c o₁ (length (text_of ps) + n) st (p₁.left ∙ eq) p₁.room in
      let (o₃, goes, p₃) =
        rest fuel fmt (c + len + 1) [] o₂ n
          (subst (λ k. Stands fmt k (format_of ps)) (omega (arith, e))
            (Stands-skip (b'%' ∷ ch ∷ letters) st))
          fits nil-NoZero (omega (arith, fits, st.size, length-append letters (format_of ps)))
          (omega (arith, enough, length-append letters (format_of ps))) p₂.left p₂.room in
      let turn =
        round_conversion w fmt c buf ch len o o₁ o₂ (omega (arith, st.size)) fits (first_byte st)
          (first_byte (Stands-next st)) high flushes converts in
      (
        o₃,
        finish_step fuel fmt c b'%' buf o (c + len + 1) [] o₂ (first_byte st) (omega arith) turn
            ∙ goes,
        Prints-trans w p₁ (Prints-trans w p₂ p₃),
      )

  finish_decimal : (ps : List Piece) (v : ℕ) → Finishes ps → Finishes (decimal v ∷ ps)
  unfolding format_of text_of args_of convert
  finish_decimal ps v rest fuel fmt c buf o n st fits nz small enough eq room =
      finish_conversion ps (itoa_text (u32 v) 10) (int v ∷ args_of ps) [] b'i' 1 rest refl
        (λ fmt c o n st e room.
          let (o', converts, p) = convert_int_lem w 10 v (args_of ps) n o e room in
          (o', rw converts refl, p))
        refl fuel fmt c buf o n st fits nz (omega (arith, enough)) eq room

  finish_hex : (ps : List Piece) (v : ℕ) → Finishes ps → Finishes (hex v ∷ ps)
  unfolding format_of text_of args_of convert
  finish_hex ps v rest fuel fmt c buf o n st fits nz small enough eq room =
      finish_conversion ps (hex_prefix ++ itoa_text (u32 v) 16) (int v ∷ args_of ps) [] b'x' 1 rest
        refl
        (λ fmt c o n st e room.
          let digits = length (itoa_text (u32 v) 16) in
          let (o₁, marks, p₁) =
            emit_lem w hex_prefix (digits + n) o hex_prefix-NoZero
              (subst (w.Room o.state) (omega arith) room) in
          let (o₂, converts, p₂) = convert_int_lem w 16 v (args_of ps) n o₁ (p₁.left ∙ e) p₁.room in
          (o₂, rw marks (rw converts refl), Prints-trans w p₁ p₂))
        refl fuel fmt c buf o n st fits nz (omega (arith, enough)) eq room

  finish_long_decimal : (ps : List Piece) (v : ℕ) → Finishes ps → Finishes (long_decimal v ∷ ps)
  unfolding format_of text_of args_of convert convert_l
  finish_long_decimal ps v rest fuel fmt c buf o n st fits nz small enough eq room =
      finish_conversion ps (ltoa (u64 v) 10) (long v ∷ args_of ps) (b'u' ∷ []) b'l' 2 rest refl
        (λ fmt c o n st e room.
          let (o', converts, p) = convert_long_lem w 10 v (args_of ps) n o e room in
          (o', rw (first_byte (Stands-next (Stands-next st))) (rw converts refl), p))
        refl fuel fmt c buf o n st fits nz (omega (arith, enough)) eq room

  finish_long_hex : (ps : List Piece) (v : ℕ) → Finishes ps → Finishes (long_hex v ∷ ps)
  unfolding format_of text_of args_of convert convert_l
  finish_long_hex ps v rest fuel fmt c buf o n st fits nz small enough eq room =
      finish_conversion ps (ltoa (u64 v) 16) (long v ∷ args_of ps) (b'x' ∷ []) b'l' 2 rest refl
        (λ fmt c o n st e room.
          let (o', converts, p) = convert_long_lem w 16 v (args_of ps) n o e room in
          (o', rw (first_byte (Stands-next (Stands-next st))) (rw converts refl), p))
        refl fuel fmt c buf o n st fits nz (omega (arith, enough)) eq room

  finish_char : (ps : List Piece) (v : ℕ) → Finishes ps → Finishes (char v ∷ ps)
  unfolding format_of text_of args_of convert
  finish_char ps v rest fuel fmt c buf o n st fits nz small enough eq room =
      finish_conversion ps (char_text (u8 (u32 v))) (int v ∷ args_of ps) [] b'c' 1 rest refl
        (λ fmt c o n st e room.
          let (o', converts, p) = convert_char_lem w v (args_of ps) n o e room in
          (o', rw converts refl, p))
        refl fuel fmt c buf o n st fits nz (omega (arith, enough)) eq room

  finish_string : (ps : List Piece) (t : List ℕ) → NoZero t → Finishes ps → Finishes (string t ∷ ps)
  unfolding format_of text_of args_of convert
  finish_string ps t nt rest fuel fmt c buf o n st fits nz small enough eq room =
      finish_conversion ps t (text t ∷ args_of ps) [] b's' 1 rest refl
        (λ fmt c o n st e room.
          let (o', converts, p) = convert_text_lem w t (args_of ps) n o nt e room in
          (o', rw converts refl, p))
        refl fuel fmt c buf o n st fits nz (omega (arith, enough)) eq room

  finish_plain :
      (ps : List Piece) (ch : ℕ) → ch ≢ 0 → ch ≢ b'%' → Finishes ps → Finishes (plain ch ∷ ps)
  unfolding format_of text_of args_of
  finish_plain ps ch pos ne rest zero fmt c buf o n st fits nz small enough eq room =
      elim (lt_irrefl 0 (omega (arith, enough))) [ ]
  finish_plain ps ch pos ne rest (suc fuel) fmt c buf o n st fits nz small enough eq room =
      let joined : (buf ++ ch ∷ []) ++ text_of ps ≡ buf ++ ch ∷ text_of ps =
        append_assoc buf (ch ∷ []) (text_of ps) in
      let turn = round_plain w fmt c buf ch o (first_byte st) ne (omega (arith, small)) in
      let (o', goes, p) =
        rest fuel fmt (c + 1) (buf ++ ch ∷ []) o n (Stands-next st) fits
          (append-NoZero buf (ch ∷ []) nz (singleton-NoZero ch pos))
          (omega (arith, small, length-append buf (ch ∷ []))) (omega (arith, enough)) eq
          (subst (λ t. w.Room o.state (length t + n)) (sym joined) room) in
      (
        o',
        finish_step fuel fmt c ch buf o (c + 1) (buf ++ ch ∷ []) o (first_byte st) pos turn ∙ goes,
        subst (λ t. Prints w o o' t [] n) joined p,
      )

  finish_nil : Finishes []
  unfolding format_of text_of args_of
  finish_nil fuel fmt c buf o n st fits nz small enough eq room =
      let whole = append-nil buf in
      let (o', ends, p) =
        emit_lem w buf n o nz (subst (λ t. w.Room o.state (length t + n)) whole room) in
      (
        o',
        rw (last_byte st) ends,
        record {
          written = p.written ∙ ap (λ t. w.view o.state ++ t) (sym whole);
          counted = p.counted ∙ ap (λ t. u64 (o.total + length t)) (sym whole);
          left = p.left ∙ eq;
          room = p.room;
        },
      )

  -- What is left of a format is written, with what the buffer holds before it.
  pub finish_lem : (ps : List Piece) → IsPlain ps → Finishes ps
  unfolding IsPlain
  finish_lem [] h = finish_nil
  finish_lem (plain ch ∷ ps) (pos, ne, h) = finish_plain ps ch pos ne (finish_lem ps h)
  finish_lem (decimal v ∷ ps) h = finish_decimal ps v (finish_lem ps h)
  finish_lem (hex v ∷ ps) h = finish_hex ps v (finish_lem ps h)
  finish_lem (long_decimal v ∷ ps) h = finish_long_decimal ps v (finish_lem ps h)
  finish_lem (long_hex v ∷ ps) h = finish_long_hex ps v (finish_lem ps h)
  finish_lem (char v ∷ ps) h = finish_char ps v (finish_lem ps h)
  finish_lem (string t ∷ ps) (nt, h) = finish_string ps t nt (finish_lem ps h)
