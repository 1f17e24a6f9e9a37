-- ===== src/Prelude/Tests.antt =====
-- Boolean tests on numbers, the conditional, and results of code that may throw.
use Prim.Native.Nat.{ℕ, ◌≤◌, ◌<◌, compare, Ordering}
use Prim.Native.String.{String}
use mathlib.Core.Path.{◌≡◌, refl}
use mathlib.Core.Logic.{◌↔◌, ◌⊎◌, inl, inr}
use mathlib.Core.Bool.{Bool, true, false, ◌&&◌}
use mathlib.Core.Option.{Option, none, some}
use native.Mathlib.Omega.{arith}

abbrev pub ltb : ℕ → ℕ → Bool
ltb a b = elim (compare a b) [ Ordering.lt ↦ true | _ ↦ false ]

abbrev pub leb : ℕ → ℕ → Bool
leb a b = elim (compare a b) [ Ordering.gt ↦ false | _ ↦ true ]

infix 50 ◌==◌
abbrev pub ◌==◌ : ℕ → ℕ → Bool
a == b = elim (compare a b) [ Ordering.eq ↦ true | _ ↦ false ]

infix 1 if◌then◌else◌
abbrev pub if◌then◌else◌ {ℓ} : {A : Type ℓ} → Bool → A → A → A
if true then x else y = x
if false then x else y = y

pub ltb→lt : (a b : ℕ) → ltb a b ≡ true → a < b
ltb→lt a b h = ground arith

pub lt→ltb : (a b : ℕ) → a < b → ltb a b ≡ true
lt→ltb a b h = ground arith

pub leb→le : (a b : ℕ) → leb a b ≡ true → a ≤ b
leb→le a b h = ground arith

pub le→leb : (a b : ℕ) → a ≤ b → leb a b ≡ true
le→leb a b h = ground arith

pub ==_iff : (a b : ℕ) → ((a == b) ≡ true) ↔ (a ≡ b)
==_iff a b = ground arith

-- To split on a computed value and keep the equation.
pub Bool-cases : (b : Bool) → (b ≡ true) ⊎ (b ≡ false)
Bool-cases true = inl refl
Bool-cases false = inr refl

pub Option-cases {ℓ} : {A : Type ℓ} (o : Option A) → (o ≡ none) ⊎ ((a : A) × (o ≡ some a))
Option-cases none = inl refl
Option-cases (some a) = inr (a, refl)

unfoldable pub is_some {ℓ} : {A : Type ℓ} → Option A → Bool
is_some none = false
is_some (some a) = true

pub and_parts : (a b : Bool) → (a && b) ≡ true → (a ≡ true) × (b ≡ true)
and_parts a b h = ground arith

-- What a function returns that may throw an `Error`: a value, or the error's message.
pub data Result {ℓ} (Value : Type ℓ) : Type ℓ where
  err : (message : String) → Result Value
  ok : (value : Value) → Result Value

-- `if (!condition) throw new Error(message)`
abbrev pub guard : (condition : Bool) → String → Result (Unit {0})
guard false message = err message
guard true message = ok tt

-- What comes after a call that may throw.
infixl 5 ◌>>=◌
abbrev pub ◌>>=◌ {ℓ κ} :
    {Found : Type ℓ} {Value : Type κ} (first : Result Found) (next : Found → Result Value)
    → Result Value
err message >>= next = err message
ok found >>= next = next found

infixl 5 ◌>>◌
abbrev pub ◌>>◌ {κ} :
    {Value : Type κ} (check : Result (Unit {0})) (rest : Result Value) → Result Value
check >> rest = check >>= λ _. rest

module _ {ℓ κ} {Found : Type ℓ} {Value : Type κ} where
  -- Where a sequence returned, its first call returned.
  pub >>=-eq-ok :
      (first : Result Found) (next : Found → Result Value) {last : Value}
      → (first >>= next) ≡ ok last
      → (found : Found) × (first ≡ ok found) × (next found ≡ ok last)
  >>=-eq-ok (err message) next h = cc
  >>=-eq-ok (ok found) next h = (found, refl, h)

pub ok-injective {ℓ} : {A : Type ℓ} {a b : A} → ok a ≡ ok b → a ≡ b
ok-injective h = cc

module _ {κ} {B : Type κ} where
  -- What a check that passed has tested, and what follows it.
  pub guard-eq-ok :
      (c : Bool) (message : String) (k : Result B) {b : B}
      → (guard c message >> k) ≡ ok b
      → (c ≡ true) × (k ≡ ok b)
  guard-eq-ok true message k h = (refl, h)
  guard-eq-ok false message k h = cc
