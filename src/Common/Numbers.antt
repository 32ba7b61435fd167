-- ===== src/Common/Numbers.antt =====
-- The numbers of the program that are not counts (shares, rates, means, effects): a type with the
-- operations that the code calls, of which the proofs use the laws of the order only. They are the
-- laws of JavaScript's `<=` on numbers other than NaN; nothing is supposed of rounding.
use mathlib.Core.Path.{◌≡◌}
use mathlib.Core.Logic.{◌⊎◌}
use mathlib.Core.Bool.{Bool, true, not}
use native.Mathlib.Omega.{arith}
use Prim.Native.Nat.{ℕ, ◌+◌, ◌-◌, ◌*◌, ◌/◌}
use toqar.Common.Tests.{if◌then◌else◌, leb}

pub record Number : Type 1 where
  pub N : Type 0
  pub zero : N
  pub one : N
  pub of_ℕ : ℕ → N
  pub add : N → N → N
  pub sub : N → N → N
  pub mul : N → N → N
  pub div : N → N → N
  pub le : N → N → Bool
  pub le_refl : (a : N) → le a a ≡ true
  pub le_trans : (a b c : N) → le a b ≡ true → le b c ≡ true → le a c ≡ true
  pub le_total : (a b : N) → (le a b ≡ true) ⊎ (le b a ≡ true)

module _ (num : Number) where
  open num use {N, le, le_refl, le_total}

  abbrev pub lt : N → N → Bool
  lt a b = not (le b a)

  -- `Math.min`.
  abbrev pub least : N → N → N
  least a b = if le a b then a else b

  pub least-le_right : (a b : N) → le (least a b) b ≡ true
  least-le_right a b = ground (arith, le_refl b)

  pub least-le_left : (a b : N) → le (least a b) a ≡ true
  least-le_left a b = ground (arith, le_refl a, le_total a b)

pub le_refl_nat : (a : ℕ) → leb a a ≡ true
le_refl_nat a = ground arith

pub le_trans_nat : (a b c : ℕ) → leb a b ≡ true → leb b c ≡ true → leb a c ≡ true
le_trans_nat a b c h k = ground arith

pub le_total_nat : (a b : ℕ) → (leb a b ≡ true) ⊎ (leb b a ≡ true)
le_total_nat a b = ground arith

-- Thousandths, as an example of such a type.
abbrev pub thousandths : Number
thousandths = record {
  N = ℕ;
  zero = 0;
  one = 1000;
  of_ℕ = λ n. n * 1000;
  add = λ a b. a + b;
  sub = λ a b. a - b;
  mul = λ a b. a * b / 1000;
  div = λ a b. a * 1000 / b;
  le = leb;
  le_refl = le_refl_nat;
  le_trans = le_trans_nat;
  le_total = le_total_nat;
}
