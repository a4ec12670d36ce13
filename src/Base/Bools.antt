-- ===== src/Base/Bools.antt =====
-- Boolean tests, the conditional, and equality tests as an interface.
use Prim.Native.Nat.{ℕ, compare, Ordering}
use mathlib.Core.Path.{◌≡◌, refl}
use mathlib.Core.Logic.{◌↔◌, ◌⊎◌, inl, inr}
use mathlib.Core.Bool.{Bool, true, false, ◌&&◌}
use mathlib.Core.Option.{Option, none, some}
use mathlib.Core.List.{List, [], ◌∷◌}
use native.Mathlib.Omega.{arith}

abbrev pub ltb : ℕ → ℕ → Bool
ltb a b = elim (compare a b) [ Ordering.lt ↦ true | _ ↦ false ]

abbrev pub leb : ℕ → ℕ → Bool
leb a b = elim (compare a b) [ Ordering.gt ↦ false | _ ↦ true ]

abbrev pub nat_eq : ℕ → ℕ → Bool
nat_eq a b = elim (compare a b) [ Ordering.eq ↦ true | _ ↦ false ]

infix 1 if◌then◌else◌
abbrev pub if◌then◌else◌ {ℓ} : {A : Type ℓ} → Bool → A → A → A
if true then x else y = x
if false then x else y = y

pub Bool-cases : (b : Bool) → (b ≡ true) ⊎ (b ≡ false)
Bool-cases true = inl refl
Bool-cases false = inr refl

pub Option-cases {ℓ} : {A : Type ℓ} (o : Option A) → (o ≡ none) ⊎ ((a : A) × (o ≡ some a))
Option-cases none = inl refl
Option-cases (some a) = inr (a, refl)

pub some-injective {ℓ} : {A : Type ℓ} {a b : A} → ◌≡◌ {A = Option A} (some a) (some b) → a ≡ b
some-injective h = cc

-- `o.unwrap_or(a)`
abbrev pub unwrap_or {ℓ} : {A : Type ℓ} → A → Option A → A
unwrap_or a none = a
unwrap_or a (some b) = b

-- A type whose values the code compares by `==`.
pub record Testable {ℓ} (A : Type ℓ) : Type ℓ where
  pub test : A → A → Bool
  pub test_iff : (a b : A) → (test a b ≡ true) ↔ (a ≡ b)

infix 50 ◌==◌
abbrev pub ◌==◌ {ℓ} : {A : Type ℓ} ⦃e : Testable A⦄ → A → A → Bool
◌==◌ ⦃e⦄ = e.test

pub eq_iff {ℓ} : {A : Type ℓ} ⦃e : Testable A⦄ (a b : A) → ((a == b) ≡ true) ↔ (a ≡ b)
eq_iff ⦃e⦄ a b = e.test_iff a b

pub eq_refl {ℓ} : {A : Type ℓ} ⦃e : Testable A⦄ (a : A) → (a == a) ≡ true
eq_refl ⦃e⦄ a = (e.test_iff a a).1 refl

pub nat_eq_iff : (a b : ℕ) → (nat_eq a b ≡ true) ↔ (a ≡ b)
nat_eq_iff a b = ground arith

instance abbrev pub nat_Eq : Testable ℕ
nat_Eq = record { test = nat_eq; test_iff = nat_eq_iff }

module _ {ℓ} {A : Type ℓ} ⦃e : Testable A⦄ where
  unfoldable pub list_eq : List A → List A → Bool
  list_eq [] [] = true
  list_eq [] (y ∷ ys) = false
  list_eq (x ∷ xs) [] = false
  list_eq (x ∷ xs) (y ∷ ys) = x == y && list_eq xs ys

  pub list_eq_iff : (xs ys : List A) → (list_eq xs ys ≡ true) ↔ (xs ≡ ys)
  unfolding list_eq
  list_eq_iff [] [] = ground arith
  list_eq_iff [] (y ∷ ys) = ground arith
  list_eq_iff (x ∷ xs) [] = ground arith
  list_eq_iff (x ∷ xs) (y ∷ ys) = ground (arith, e.test_iff x y, list_eq_iff xs ys)

instance abbrev pub list_Eq {ℓ} : {A : Type ℓ} ⦃e : Testable A⦄ → Testable (List A)
list_Eq = record { test = list_eq; test_iff = list_eq_iff }

pub &&_true : (a b : Bool) → (a && b) ≡ true → (a ≡ true) × (b ≡ true)
&&_true a b h = ground arith
