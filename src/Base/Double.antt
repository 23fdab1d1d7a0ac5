-- ===== src/Base/Double.antt =====
-- `double` as an interface: the carrier, the operations and the comparisons that the code uses.
-- Nothing is assumed of them here; a theorem that needs a law of rounding names it.
use Prim.Native.Nat.{ℕ}
use mathlib.Core.Bool.{Bool}
use x1miner.Base.Tests.{if◌then◌else◌}
use x1miner.Base.Int.{ℤ}

pub record Double : Type 1 where
  pub F : Type 0
  -- The literal n / 10 ^ k.
  pub lit : ℕ → ℕ → F
  -- `static_cast<double>` of an integer.
  pub of_int : ℤ → F
  pub add : F → F → F
  pub sub : F → F → F
  pub mul : F → F → F
  pub div : F → F → F
  pub lt : F → F → Bool
  pub le : F → F → Bool
  -- `std::llround`, and `static_cast<int>`.
  pub llround : F → ℤ
  pub trunc : F → ℤ

module _ (D : Double) where
  open D use {F, lt}

  -- `std::max` and `std::min`.
  unfoldable pub max_f : F → F → F
  max_f a b = if lt a b then b else a

  unfoldable pub min_f : F → F → F
  min_f a b = if lt b a then b else a

  -- `std::max(lo, std::min(hi, v))`
  unfoldable pub clamp_f : F → F → F → F
  unfolding max_f min_f
  clamp_f v lo hi = max_f lo (min_f hi v)
