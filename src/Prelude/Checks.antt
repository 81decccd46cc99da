-- ===== src/Prelude/Checks.antt =====
-- Gates: `if (condition) blockers.push(blocker)`, one after the other, and `new Set(values)`.
use Prim.Native.Nat.{◌<◌}
use Prim.Native.String.{String}
use text.Mathlib.Text.{◌==◌}
use text.Mathlib.TextEquality.{eq_iff}
use mathlib.Core.Path.{◌≡◌, refl, sym, ◌∙◌}
use mathlib.Core.Logic.{◌↔◌, ◌≢◌, inl, inr}
use mathlib.Core.Bool.{Bool, true, false, not, ◌&&◌, ◌||◌}
use mathlib.Core.List.{List, [], ◌∷◌}
use native.Mathlib.Omega.{arith}
use malacca_port_resilience.Prelude.Tests.{if◌then◌else◌, Bool-cases}
use malacca_port_resilience.Prelude.Lists.{length}

module _ {ℓ} {A : Type ℓ} where
  -- The blockers whose conditions hold, in the order of the checks.
  abbrev pub raised : List (Bool × A) → List A
  raised [] = []
  raised ((c, b) ∷ rest) = if c then b ∷ raised rest else raised rest

  -- Every check of a table passes.
  abbrev pub Clear : List (Bool × A) → Type 0
  Clear [] = Unit
  Clear ((c, b) ∷ rest) = (c ≡ false) × Clear rest

  pub raised-eq-nil_iff : (xs : List (Bool × A)) → (raised xs ≡ []) ↔ Clear xs
  raised-eq-nil_iff [] = ((λ _. tt), (λ _. refl))
  raised-eq-nil_iff ((true, b) ∷ rest) = ((λ h. cc), (λ h. cc))
  raised-eq-nil_iff ((false, b) ∷ rest) =
      let (to, from) = raised-eq-nil_iff rest in ((λ h. (refl, to h)), (λ h. from h.1))

  abbrev pub is_empty : List A → Bool
  is_empty [] = true
  is_empty (x ∷ xs) = false

  pub is_empty_iff : (xs : List A) → (is_empty xs ≡ true) ↔ (xs ≡ [])
  is_empty_iff [] = ((λ _. refl), (λ _. refl))
  is_empty_iff (x ∷ xs) = ((λ h. cc), (λ h. cc))

abbrev pub contains : String → List String → Bool
contains a [] = false
contains a (x ∷ xs) = (x == a) || contains a xs

unfoldable pub without : String → List String → List String
without a [] = []
without a (x ∷ xs) = if x == a then without a xs else x ∷ without a xs

-- `[...new Set(xs)]`: the first of each, in order.
unfoldable pub unique : List String → List String
unfolding without
unique [] = []
unique (x ∷ xs) = x ∷ without x (unique xs)

pub unique-eq-nil_iff : (xs : List String) → (unique xs ≡ []) ↔ (xs ≡ [])
unfolding unique
unique-eq-nil_iff [] = ((λ _. refl), (λ _. refl))
unique-eq-nil_iff (x ∷ xs) = ((λ h. cc), (λ h. cc))

contains-without :
    (a b : String) (xs : List String) → contains a (without b xs) ≡ (not (b == a) && contains a xs)
unfolding without
contains-without a b [] = ground arith
contains-without a b (x ∷ xs) =
    ground (arith, eq_iff x b, eq_iff x a, eq_iff b a, contains-without a b xs)

-- A set has the members of the list that it is made of.
pub contains-unique : (a : String) (xs : List String) → contains a (unique xs) ≡ contains a xs
unfolding unique
contains-unique a [] = refl
contains-unique a (x ∷ xs) = ground (arith, contains-without a x (unique xs), contains-unique a xs)

some_member : (xs : List String) → 0 < length xs → (a : String) × (contains a xs ≡ true)
some_member [] h = elim h [ ]
some_member (x ∷ xs) h = (x, ground (arith, eq_iff x x))

-- A set of two or more members has two that differ.
pub two_of_unique :
    (xs : List String)
    → 1 < length (unique xs)
    → (a : String) × (b : String) × (a ≢ b) × (contains a xs ≡ true) × (contains b xs ≡ true)
unfolding unique
two_of_unique [] h = elim h [ ]
two_of_unique (x ∷ xs) h =
    let (b, there) = some_member (without x (unique xs)) (omega arith) in
    (
      x,
      b,
      ground (arith, contains-without b x (unique xs), eq_iff x b),
      ground (arith, eq_iff x x),
      ground (arith, contains-without b x (unique xs), contains-unique b xs),
    )

contains_pos : (a : String) (xs : List String) → contains a xs ≡ true → 0 < length xs
contains_pos a [] h = cc
contains_pos a (x ∷ xs) h = omega arith

contains_tail :
    (x a : String) (xs : List String)
    → x ≢ a
    → contains a (x ∷ xs) ≡ true
    → 0 < length (without x (unique xs))
contains_tail x a xs ne h =
    contains_pos a _
      (ground (arith, contains-without a x (unique xs), contains-unique a xs, eq_iff x a))

-- Two members that differ make a set of two or more.
pub unique_of_two :
    (xs : List String) (a b : String)
    → a ≢ b
    → contains a xs ≡ true
    → contains b xs ≡ true
    → 1 < length (unique xs)
unfolding unique
unique_of_two [] a b ne ha hb = cc
unique_of_two (x ∷ xs) a b ne ha hb = elim (Bool-cases (x == a)) [
  | inl e ↦ omega (arith, contains_tail x b xs (λ p. ne (sym ((eq_iff x a).0 e) ∙ p)) hb)
  | inr e ↦ omega (arith, contains_tail x a xs (ground (arith, eq_iff x a)) ha)
]
