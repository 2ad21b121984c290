-- ===== src/Common/Platform.antt =====
-- The numbers of the platform: a type with the operations that the source calls, and the laws of
-- IEEE comparison that its callers rely on. Whole numbers that the source computes itself are ℕ,
-- and those below zero that it returns are ℤ.
use Prim.Native.Nat.{ℕ, zero, suc, ◌+◌, ◌/◌}
use mathlib.Core.Path.{◌≡◌}
use mathlib.Core.Bool.{Bool, true, false}
use mathlib.Core.List.{[], ◌∷◌}
use native.Mathlib.Omega.{arith}
use miguel_n_ai_trackflow_pr.Common.Tests.{ltb}
use miguel_n_ai_trackflow_pr.Common.Texts.{Text}

pub record Numbers (N : Type 0) : Type 0 where
  -- `Number.isFinite(a)`
  pub is_finite : N → Bool
  -- `a < b`
  pub lt : N → N → Bool
  -- `a + b` and `a / b`
  pub add : N → N → N
  pub div : N → N → N
  -- The number that is written n.
  pub of_ℕ : ℕ → N
  -- `Number.EPSILON`
  pub epsilon : N
  -- `String(a)`
  pub show : N → Text

-- `<` is a strict linear preorder on the finite numbers.
pub record OrderLaws {N : Type 0} (n : Numbers N) : Type 0 where
  pub irrefl : (a : N) → n.is_finite a ≡ true → n.lt a a ≡ false
  pub trans :
      (a b c : N)
      → n.is_finite a ≡ true
      → n.is_finite b ≡ true
      → n.is_finite c ≡ true
      → n.lt a b ≡ false
      → n.lt b c ≡ false
      → n.lt a c ≡ false
  pub asym :
      (a b : N) → n.is_finite a ≡ true → n.is_finite b ≡ true → n.lt a b ≡ true → n.lt b a ≡ false

-- `negsuc n` is -(n + 1).
pub data ℤ : Type 0 where
  pos : ℕ → ℤ
  negsuc : ℕ → ℤ

-- `n - 1` of a whole number
abbrev pub before : ℕ → ℤ
before zero = negsuc 0
before (suc n) = pos n

-- Numbers without infinities, for runs of the model.
abbrev pub whole_numbers : Numbers ℕ
whole_numbers = record {
  is_finite = λ n. true;
  lt = λ a b. ltb a b;
  add = λ a b. a + b;
  div = λ a b. a / b;
  of_ℕ = λ n. n;
  epsilon = 1;
  show = λ n. n ∷ [];
}

pub whole_numbers-OrderLaws : OrderLaws whole_numbers
whole_numbers-OrderLaws = record {
  irrefl = λ a _. ground arith;
  trans = λ a b c _ _ _ p q. ground arith;
  asym = λ a b _ _ p. ground arith;
}
