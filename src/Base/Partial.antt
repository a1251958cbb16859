-- ===== src/Base/Partial.antt =====
-- Code that C leaves undefined on some inputs returns `none` there: a read or write outside an
-- array, a division by zero, a loop that does not end.
use mathlib.Core.Path.{◌≡◌, refl}
use mathlib.Core.Bool.{Bool, true, false}
use mathlib.Core.Option.{Option, none, some}
use twos.Base.Tests.{if◌then◌else◌}

infixl 5 ◌>>=◌
abbrev pub ◌>>=◌ {ℓ κ} : {A : Type ℓ} {B : Type κ} → Option A → (A → Option B) → Option B
none >>= f = none
some a >>= f = f a

-- What a successful chain went through.
pub >>=-eq-some {ℓ κ} :
    {A : Type ℓ} {B : Type κ} (m : Option A) (f : A → Option B) {b : B}
    → (m >>= f) ≡ some b
    → (a : A) × (m ≡ some a) × (f a ≡ some b)
>>=-eq-some none f h = cc
>>=-eq-some (some a) f h = (a, refl, h)

-- What a successful test says, with the failure in either branch.
pub if-eq-some {ℓ} :
    {A : Type ℓ} (t : Bool) (m : Option A) {a : A}
    → (if t then m else none) ≡ some a
    → (t ≡ true) × (m ≡ some a)
if-eq-some true m h = (refl, h)
if-eq-some false m h = absurd (cc h)

pub unless-eq-some {ℓ} :
    {A : Type ℓ} (t : Bool) (m : Option A) {a : A}
    → (if t then none else m) ≡ some a
    → (t ≡ false) × (m ≡ some a)
unless-eq-some true m h = absurd (cc h)
unless-eq-some false m h = (refl, h)

pub some-injective {ℓ} : {A : Type ℓ} {a b : A} → some a ≡ some b → a ≡ b
some-injective h = cc h
