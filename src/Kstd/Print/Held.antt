-- ===== src/Kstd/Print/Held.antt =====
-- Texts in memory.
use twos.Base.{
  ℕ, zero, suc, ◌+◌, ◌≤◌, ◌<◌, ◌≡◌, ◌≢◌, ◌⊎◌, ◌∙◌, refl, sym, ap, ap₂, ◌==◌, true, false, List, [],
  ◌∷◌, ◌++◌, length, get_or, Memory, update, update_ne, update_self, arith,
}
use twos.Acpi.{string_at}
use twos.Kstd.Copy.Laws.{IsText}
use twos.Kstd.Print.Pieces.{NoZero}
use twos.Kstd.Print.Sprint.{write_text}

-- The text stands at `a`, and a zero behind it.
pub record Holds (mem : Memory) (a : ℕ) (t : List ℕ) : Type 0 where
  pub nonzero : NoZero t
  pub bytes : (i : ℕ) → i < length t → mem (a + i) ≡ get_or t i 0
  pub ends : mem (a + length t) ≡ 0

NoZero-at : (t : List ℕ) → NoZero t → (i : ℕ) → i < length t → get_or t i 0 ≢ 0
unfolding NoZero
NoZero-at [] h i l = elim l [ ]
NoZero-at (c ∷ cs) (ne, h) zero l = ne
NoZero-at (c ∷ cs) (ne, h) (suc i) l = NoZero-at cs h i (omega (arith, l))

pub Holds-IsText : {mem : Memory} {a : ℕ} {t : List ℕ} → Holds mem a t → IsText mem a (length t)
Holds-IsText {mem} {a} {t} h = record {
  body = λ i l z. NoZero-at t h.nonzero i l (sym (h.bytes i l) ∙ z);
  ends = h.ends;
}

Holds-tail : {mem : Memory} {a c : ℕ} {cs : List ℕ} → Holds mem a (c ∷ cs) → Holds mem (a + 1) cs
unfolding NoZero
Holds-tail {mem} {a} {c} {cs} h = record {
  nonzero = h.nonzero.1;
  bytes = λ i l. ap mem (omega arith) ∙ h.bytes (suc i) (omega (arith, l));
  ends = ap mem (omega arith) ∙ h.ends;
}

-- Reading the text back.
pub string_at-Holds :
    (n a : ℕ) (mem : Memory) (t : List ℕ) → Holds mem a t → length t < n → string_at n a mem ≡ t
unfolding string_at
string_at-Holds zero a mem t h l = elim l [ ]
string_at-Holds (suc n) a mem [] h l =
    let over : (mem a == 0) ≡ true =
      ground (arith, h.ends, ap mem {x = a + 0} {y = a} (omega arith)) in
    rw over refl
string_at-Holds (suc n) a mem (c ∷ cs) h l =
    let first : mem a ≡ c = ap mem (omega arith) ∙ h.bytes 0 (omega arith) in
    let going : (mem a == 0) ≡ false =
      ground (arith, first, NoZero-at (c ∷ cs) h.nonzero 0 (omega arith)) in
    rw going (
      ap₂ (λ x xs. x ∷ xs) first
        (string_at-Holds n (a + 1) mem cs (Holds-tail h) (omega (arith, l))))

pub write_text_outside :
    (a : ℕ) (t : List ℕ) (mem : Memory) (b : ℕ)
    → (b < a) ⊎ (a + length t < b)
    → write_text a t mem b ≡ mem b
unfolding write_text
write_text_outside a [] mem b h = update_ne mem a b 0 (omega arith)
write_text_outside a (c ∷ cs) mem b h =
    write_text_outside (a + 1) cs (update mem a c) b (omega arith)
    ∙ update_ne mem a b c (omega arith)

pub write_text_at :
    (a : ℕ) (t : List ℕ) (mem : Memory) (i : ℕ)
    → i ≤ length t
    → write_text a t mem (a + i) ≡ get_or t i 0
unfolding write_text
write_text_at a [] mem i h = update_self mem a (a + i) 0 (omega arith)
write_text_at a (c ∷ cs) mem zero h =
    write_text_outside (a + 1) cs (update mem a c) (a + 0) (omega arith)
    ∙ update_self mem a (a + 0) c (omega arith)
write_text_at a (c ∷ cs) mem (suc i) h =
    ap (write_text (a + 1) cs (update mem a c)) (omega arith)
    ∙ write_text_at (a + 1) cs (update mem a c) i (omega arith)

pub get_or-append_left : (v t : List ℕ) (i : ℕ) → i < length v → get_or (v ++ t) i 0 ≡ get_or v i 0
get_or-append_left [] t i h = elim h [ ]
get_or-append_left (c ∷ cs) t zero h = refl
get_or-append_left (c ∷ cs) t (suc i) h = get_or-append_left cs t i (omega (arith, h))

pub get_or-append_right : (v t : List ℕ) (i : ℕ) → get_or (v ++ t) (length v + i) 0 ≡ get_or t i 0
get_or-append_right [] t i = ap (λ j. get_or t j 0) (omega arith)
get_or-append_right (c ∷ cs) t i =
    ap (λ j. get_or (c ∷ (cs ++ t)) j 0) {x = suc (length cs) + i} {y = suc (length cs + i)}
      (omega arith)
    ∙ get_or-append_right cs t i

pub get_or-end : (t : List ℕ) → get_or t (length t) 0 ≡ 0
get_or-end [] = refl
get_or-end (c ∷ cs) = get_or-end cs
