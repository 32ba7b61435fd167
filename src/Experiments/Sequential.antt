-- ===== src/Experiments/Sequential.antt =====
-- packages/experiments/src/sequential.ts: the sequential test on the means of two arms. Numbers are those
-- of `Number`, with the logarithm, the root and the infinities of `Floats`; of these only the place of
-- the infinities in the order is used.
use toqar.Common.{ℕ, suc, min, ◌≡◌, true, ◌||◌, if◌then◌else◌, eqb}
use toqar.Common.Numbers.{Number, lt}

pub record Floats : Type 1 where
  pub num : Number
  pub log : num.N → num.N
  pub sqrt : num.N → num.N
  pub infinity : num.N
  pub minus_infinity : num.N
  pub le_infinity : (a : num.N) → num.le a infinity ≡ true
  pub minus_infinity_le : (a : num.N) → num.le minus_infinity a ≡ true

pub data Arm : Type 0 where
  control variant : Arm

pub data Decision : Type 0 where
  inconclusive ship revert : Decision

module _ (floats : Floats) where
  open floats use {num, log, sqrt, infinity, minus_infinity}
  open num use {N, one, of_ℕ, add, sub, mul, div, le}

  pub record Interval : Type 0 where
    pub lower : N
    pub upper : N

  pub record Evaluation : Type 0 where
    pub decision : Decision
    pub effect : N
    pub interval : Interval
    pub control_samples : ℕ
    pub variant_samples : ℕ

  pub record ArmState : Type 0 where
    pub n : ℕ
    pub sum : N

  pub record SequentialTest : Type 0 where
    pub control : ArmState
    pub variant : ArmState
    pub alpha : N
    pub rho : N

  abbrev largest : N → N → N
  largest a b = if le a b then b else a

  abbrev sigma2 : N
  sigma2 = div one (of_ℕ 4)

  unfoldable pub cs_radius : ℕ → N → N → N
  cs_radius n alpha rho =
      if eqb n 0
      then infinity
      else let term =
          div (mul sigma2 (add (mul (of_ℕ n) rho) one)) (mul (mul (of_ℕ n) (of_ℕ n)) rho) in
        let log_term = log (div (add (mul (of_ℕ n) rho) one) (mul alpha alpha)) in
        sqrt (mul term (largest log_term num.zero))

  abbrev pub empty_arm : ArmState
  empty_arm = record { n = 0; sum = num.zero }

  -- With the default `rho`.
  abbrev pub create_sequential_test : N → SequentialTest
  create_sequential_test alpha = record {
    control = empty_arm;
    variant = empty_arm;
    alpha = alpha;
    rho = one;
  }

  abbrev pub with_value : N → ArmState → ArmState
  with_value value s = record { n = suc s.n; sum = add s.sum value }

  abbrev pub observe : Arm → N → SequentialTest → SequentialTest
  observe control value t = record t { control = with_value value t.control }
  observe variant value t = record t { variant = with_value value t.variant }

  unfoldable pub count : SequentialTest → ℕ
  count t = min t.control.n t.variant.n

  abbrev pub decided : Interval → Decision
  decided i =
      if lt num num.zero i.lower
      then ship
      else if lt num i.upper num.zero
      then revert
      else inconclusive

  abbrev pub mean : ArmState → N
  mean s = div s.sum (of_ℕ s.n)

  abbrev pub effect_of : SequentialTest → N
  effect_of t = sub (mean t.variant) (mean t.control)

  abbrev pub radius_of : SequentialTest → N
  radius_of t =
      add (cs_radius t.control.n (div t.alpha (of_ℕ 2)) t.rho)
        (cs_radius t.variant.n (div t.alpha (of_ℕ 2)) t.rho)

  abbrev pub interval_of : SequentialTest → Interval
  interval_of t = record {
    lower = sub (effect_of t) (radius_of t);
    upper = add (effect_of t) (radius_of t);
  }

  unfoldable pub evaluate : SequentialTest → Evaluation
  evaluate t =
      if eqb t.control.n 0 || eqb t.variant.n 0
      then record {
        decision = inconclusive;
        effect = num.zero;
        interval = record { lower = minus_infinity; upper = infinity };
        control_samples = t.control.n;
        variant_samples = t.variant.n;
      }
      else record {
        decision = decided (interval_of t);
        effect = effect_of t;
        interval = interval_of t;
        control_samples = t.control.n;
        variant_samples = t.variant.n;
      }
