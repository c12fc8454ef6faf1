-- ===== src/Prelude/Checks.antt =====
-- Code that may raise an exception with a message, and touches nothing.
use Prim.Native.String.{String}
use mathlib.Core.Path.{◌≡◌, refl, subst}
use mathlib.Core.Bool.{Bool, true, false}
use project_bourne.Prelude.Tests.{if◌then◌else◌}

pub data Checked {ℓ} (A : Type ℓ) : Type ℓ where
  value : A → Checked A
  refused : String → Checked A

infixl 10 ◌>>=◌ ◌>>◌
abbrev pub ◌>>=◌ {ℓ κ} : {A : Type ℓ} {B : Type κ} → Checked A → (A → Checked B) → Checked B
value a >>= f = f a
refused message >>= f = refused message

abbrev pub ◌>>◌ {ℓ} : {B : Type ℓ} → Checked (Unit {0}) → Checked B → Checked B
m >> k = m >>= λ _. k

-- `if not holds: raise ...`
abbrev pub guard : Bool → String → Checked (Unit {0})
guard holds message = if holds then value tt else refused message

-- What holds of the value, where there is one.
abbrev pub Holds {ℓ κ} : {A : Type ℓ} → (A → Type κ) → Checked A → Type κ
Holds P (value a) = P a
Holds P (refused message) = Unit

pub Holds-bind {ℓ κ μ} :
    {A B : Type ℓ} (Q : A → Type κ) (P : B → Type μ) (m : Checked A) (f : A → Checked B)
    → Holds Q m
    → ((a : A) → Q a → Holds P (f a))
    → Holds P (m >>= f)
Holds-bind Q P (value a) f h k = k a h
Holds-bind Q P (refused message) f h k = tt

pub Holds-any {ℓ} : {A : Type ℓ} (m : Checked A) → Holds (λ _. Unit {0}) m
Holds-any (value a) = tt
Holds-any (refused message) = tt

pub guarded : (b : Bool) (message : String) → Holds (λ _. b ≡ true) (guard b message)
guarded true message = refl
guarded false message = tt

-- A check that returns nothing, and its equation where it does not refuse.
pub Holds-self : (m : Checked (Unit {0})) → Holds (λ _. m ≡ value tt) m
Holds-self (value u) = refl
Holds-self (refused message) = tt

pub Holds-at {ℓ κ} :
    {A : Type ℓ} (P : A → Type κ) (m : Checked A) (a : A) → m ≡ value a → Holds P m → P a
Holds-at P m a e h = subst (λ n. Holds P n) e h
