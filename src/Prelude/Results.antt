-- ===== src/Prelude/Results.antt =====
-- What a call into the kernel comes to: it returns a value, it ends in `srv_KernelPanic` (which
-- never returns) with a cause, it touches memory that is not there, or the rounds that the model
-- gives a loop do not suffice.
use Prim.Native.String.{String}
use mathlib.Core.Path.{◌≡◌, refl, ap}
use mathlib.Core.Bool.{Bool, true, false}
use mathlib.Core.Option.{Option, none, some}
use sysrv.Prelude.Tests.{if◌then◌else◌}

pub data Outcome {ℓ} (A : Type ℓ) : Type ℓ where
  done : A → Outcome A
  panic : String → Outcome A
  fault out_of_fuel : Outcome A

infixl 5 ◌>>=◌
abbrev pub ◌>>=◌ {ℓ κ} : {A : Type ℓ} {B : Type κ} → Outcome A → (A → Outcome B) → Outcome B
done a >>= f = f a
panic cause >>= f = panic cause
fault >>= f = fault
out_of_fuel >>= f = out_of_fuel

-- A read through an array or a pointer: a fault where there is nothing to read.
abbrev pub expect {ℓ} : {A : Type ℓ} → Option A → Outcome A
expect none = fault
expect (some a) = done a

unfoldable value_or {ℓ} : {A : Type ℓ} → A → Outcome A → A
value_or a (done b) = b
value_or a _ = a

pub done-injective {ℓ} : {A : Type ℓ} {a b : A} → done a ≡ done b → a ≡ b
unfolding value_or
done-injective {A} {a} e = ap (value_or a) e

-- Every result satisfies `P`.
abbrev pub Holds {ℓ κ} : {A : Type ℓ} → (A → Type κ) → Outcome A → Type κ
Holds P (done a) = P a
Holds P _ = Unit

pub Holds-if {ℓ κ} :
    {A : Type ℓ} (P : A → Type κ) (b : Bool) (x y : Outcome A)
    → Holds P x
    → Holds P y
    → Holds P (if b then x else y)
Holds-if P true x y h k = h
Holds-if P false x y h k = k

pub Holds-bind {ℓ ι κ μ} :
    {A : Type ℓ} {B : Type ι} (Q : A → Type μ) (P : B → Type κ) (m : Outcome A) (f : A → Outcome B)
    → Holds Q m
    → ((a : A) → Q a → Holds P (f a))
    → Holds P (m >>= f)
Holds-bind Q P (done a) f h k = k a h
Holds-bind Q P (panic c) f h k = tt
Holds-bind Q P fault f h k = tt
Holds-bind Q P out_of_fuel f h k = tt

pub Holds-any {ℓ} : {A : Type ℓ} (m : Outcome A) → Holds (λ _. Unit {0}) m
Holds-any (done a) = tt
Holds-any (panic c) = tt
Holds-any fault = tt
Holds-any out_of_fuel = tt

-- Two continuations that agree on what holds of the results.
pub bind_cong {ℓ ι κ} :
    {A : Type ℓ} {B : Type ι} (Q : A → Type κ) (m : Outcome A) (f g : A → Outcome B)
    → Holds Q m
    → ((a : A) → Q a → f a ≡ g a)
    → (m >>= f) ≡ (m >>= g)
bind_cong Q (done a) f g h k = k a h
bind_cong Q (panic c) f g h k = refl
bind_cong Q fault f g h k = refl
bind_cong Q out_of_fuel f g h k = refl

pub bind_assoc {ℓ ι κ} :
    {A : Type ℓ} {B : Type ι} {C : Type κ} (m : Outcome A) (f : A → Outcome B) (g : B → Outcome C)
    → ((m >>= f) >>= g) ≡ (m >>= λ a. f a >>= g)
bind_assoc (done a) f g = refl
bind_assoc (panic c) f g = refl
bind_assoc fault f g = refl
bind_assoc out_of_fuel f g = refl
