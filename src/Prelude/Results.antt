-- ===== src/Prelude/Results.antt =====
-- Code that throws returns an `Attempt`: the value, or the message of the error.
use Prim.Native.String.{String}
use mathlib.Core.Path.{◌≡◌, refl}
use mathlib.Core.Logic.{◌⊎◌, inl, inr}

pub data Attempt {ℓ} (A : Type ℓ) : Type ℓ where
  thrown : String → Attempt A
  ok : A → Attempt A

infixl 5 ◌>>=◌
abbrev pub ◌>>=◌ {ℓ κ} : {A : Type ℓ} {T : Type κ} → Attempt A → (A → Attempt T) → Attempt T
thrown message >>= next = thrown message
ok value >>= next = next value

-- A sequence that ends well had a first part that ended well.
pub >>=-eq-ok {ℓ κ} :
    {A : Type ℓ} {T : Type κ} (first : Attempt A) (next : A → Attempt T) {v : T}
    → (first >>= next) ≡ ok v
    → (a : A) × (first ≡ ok a) × (next a ≡ ok v)
>>=-eq-ok (thrown message) next h = cc
>>=-eq-ok (ok a) next h = (a, refl, h)

pub Attempt-cases {ℓ} :
    {A : Type ℓ} (m : Attempt A)
    → ((message : String) × (m ≡ thrown message)) ⊎ ((a : A) × (m ≡ ok a))
Attempt-cases (thrown message) = inl (message, refl)
Attempt-cases (ok a) = inr (a, refl)
