-- ===== src/Prelude/Numbers.antt =====
-- JavaScript's numbers where the source uses fractions: a type and its operations, of which nothing
-- is assumed, so that what is proved holds of NaN and the infinities as well.
use Prim.Native.Nat.{ℕ}
use mathlib.Core.Bool.{Bool, true, false}
use mathlib.Core.Path.{◌≡◌}

pub record Floats (F : Type 0) : Type 0 where
  -- `a < b`, `a <= b`, `a === b`
  pub lt : F → F → Bool
  pub le : F → F → Bool
  pub eq : F → F → Bool
  pub is_finite : F → Bool
  -- `decimal m d` is the literal m / 10^d.
  pub decimal : ℕ → ℕ → F
  pub of_ℕ : ℕ → F
  pub add : F → F → F
  pub sub : F → F → F
  pub mul : F → F → F
  pub div : F → F → F
  pub abs : F → F

-- A value that compares with itself; NaN and a value that is missing do not.
abbrev pub IsNumber : {F : Type 0} → Floats F → F → Type 0
IsNumber fl x = fl.le x x ≡ true

-- What is documented of the order: numbers compare one way or the other, the literals and all that is
-- finite are numbers.
pub record FloatsLaws {F : Type 0} (fl : Floats F) : Type 0 where
  pub total : (a b : F) → IsNumber fl a → IsNumber fl b → fl.lt a b ≡ false → fl.le b a ≡ true
  pub strict : (a b : F) → fl.le b a ≡ true → fl.lt a b ≡ false
  pub literal : (m d : ℕ) → IsNumber fl (fl.decimal m d)
  pub finite : (a : F) → fl.is_finite a ≡ true → IsNumber fl a

module _ {F : Type 0} {fl : Floats F} (laws : FloatsLaws fl) where
  pub at_least :
      (x : F) (m d : ℕ)
      → IsNumber fl x
      → fl.lt x (fl.decimal m d) ≡ false
      → fl.le (fl.decimal m d) x ≡ true
  at_least x m d h e = laws.total x (fl.decimal m d) h (laws.literal m d) e

  pub at_most :
      (x : F) (m d : ℕ)
      → IsNumber fl x
      → fl.lt (fl.decimal m d) x ≡ false
      → fl.le x (fl.decimal m d) ≡ true
  at_most x m d h e = laws.total (fl.decimal m d) x (laws.literal m d) h e
