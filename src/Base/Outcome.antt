-- ===== src/Base/Outcome.antt =====
-- Kernel code that may call `panic`, and the `do` blocks over it.
use mathlib.Core.Path.{◌≡◌, subst}
use mathlib.Core.Bool.{Bool, true, false}

-- What a kernel routine does: it returns, or it panics (an assertion that fails panics too).
pub data Outcome {ℓ} (A : Type ℓ) : Type ℓ where
  panic : Outcome A
  ok : A → Outcome A

-- The rest of a routine runs if what comes before it returns.
module _ {ℓ ℓ'} {B : Type ℓ'} where
  infixl 5 ◌>>=◌ ◌>>◌
  abbrev pub ◌>>=◌ : {A : Type ℓ} → Outcome A → (A → Outcome B) → Outcome B
  panic >>= rest = panic
  ok value >>= rest = rest value

  abbrev pub ◌>>◌ : Outcome (Unit {ℓ}) → Outcome B → Outcome B
  panic >> rest = panic
  ok tt >> rest = rest

-- `if (test) panic(…)`
abbrev pub panic_if : Bool → Outcome (Unit {0})
panic_if false = ok tt
panic_if true = panic

-- A property of the result, if there is one.
abbrev pub OnOk {ℓ κ} : {A : Type ℓ} → (A → Type κ) → Outcome A → Type κ
OnOk P (ok a) = P a
OnOk P panic = Unit

pub OnOk->>= {ℓ κ μ} :
    {A : Type ℓ} {B : Type κ} (P : B → Type μ) (m : Outcome A) (f : A → Outcome B)
    → ((a : A) → OnOk P (f a))
    → OnOk P (m >>= f)
OnOk->>= P (ok a) f h = h a
OnOk->>= P panic f h = tt

-- With what is known of the first result.
pub OnOk-then {ℓ κ μ ν} :
    {A : Type ℓ} {B : Type κ} (P : A → Type ν) (Q : B → Type μ) (m : Outcome A) (f : A → Outcome B)
    → OnOk P m
    → ((a : A) → P a → OnOk Q (f a))
    → OnOk Q (m >>= f)
OnOk-then P Q (ok a) f p h = h a p
OnOk-then P Q panic f p h = tt

pub OnOk-ok {ℓ κ} :
    {A : Type ℓ} (P : A → Type κ) {m : Outcome A} {a : A} → OnOk P m → m ≡ ok a → P a
OnOk-ok P h e = subst (OnOk P) e h
