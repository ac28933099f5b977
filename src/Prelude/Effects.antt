-- ===== src/Prelude/Effects.antt =====
-- How a call ends. `panic` is Rust's; `waits` is a blocking call that nothing wakes; `stuck` is no
-- Rust outcome: a loop of the model ran out of fuel.
use mathlib.Core.Path.{◌≡◌, refl}

pub data Outcome {ℓ} (A : Type ℓ) : Type ℓ where
  ok : A → Outcome A
  panic waits stuck : Outcome A

infixl 5 ◌>>=◌
abbrev pub ◌>>=◌ {ℓ κ} : {A : Type ℓ} {B : Type κ} → Outcome A → (A → Outcome B) → Outcome B
panic >>= next = panic
waits >>= next = waits
stuck >>= next = stuck
ok first >>= next = next first

-- A chain that returns has a first call that returned.
pub >>=-eq-ok {ℓ κ} :
    {A : Type ℓ} {B : Type κ} (call : Outcome A) (next : A → Outcome B) {end : B}
    → (call >>= next) ≡ ok end
    → (first : A) × (call ≡ ok first) × (next first ≡ ok end)
>>=-eq-ok panic next e = cc
>>=-eq-ok waits next e = cc
>>=-eq-ok stuck next e = cc
>>=-eq-ok (ok first) next e = (first, refl, e)

pub ok_inj {ℓ} : {A : Type ℓ} (a b : A) → ok a ≡ ok b → a ≡ b
ok_inj a b h = cc
