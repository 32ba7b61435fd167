-- ===== src/Experiments/Agent/Decisions.antt =====
-- packages/experiment-agent/src/agent.ts and packages/experiments/src/sequential.ts: what a decision on
-- the target says of its interval and its samples.
use toqar.Common.{
  ◌<◌, ◌≡◌, refl, ◌⊎◌, inl, inr, Bool, true, false, ◌||◌, if◌then◌else◌, eqb, arith, Bool-cases,
}
use toqar.Common.Numbers.{lt}
use toqar.Experiments.Sequential.{
  Floats, Decision, inconclusive, ship, revert, Interval, Evaluation, SequentialTest, evaluate,
}
use toqar.Experiments.Trial.{Direction, increase, decrease, ArmObservations}
use toqar.Experiments.Agent.{run_sequence, harmed, target_decision}

abbrev pub opposite : Direction → Direction
opposite increase = decrease
opposite decrease = increase

chosen_by :
    (P : Decision → Type 0) (a b : Bool)
    → (a ≡ true → P ship)
    → (b ≡ true → P revert)
    → (a ≡ false → b ≡ false → P inconclusive)
    → P (if a then ship else if b then revert else inconclusive)
chosen_by P true b p q r = p refl
chosen_by P false true p q r = q refl
chosen_by P false false p q r = r refl refl

module _ (floats : Floats) where
  open floats use {num}
  open num use {N}

  -- The interval lies on the side that the decision claims.
  abbrev pub Shows : Direction → Decision → Interval floats → Type 0
  Shows direction ship i = harmed floats direction i ≡ true
  Shows direction revert i = harmed floats (opposite direction) i ≡ true
  Shows direction inconclusive i = ⊥

  -- The interval reaches zero from both sides.
  abbrev pub Straddles : Interval floats → Type 0
  Straddles i = (lt num num.zero i.lower ≡ false) × (lt num i.upper num.zero ≡ false)

  -- What is known of a decision for the target.
  abbrev pub Decides : Direction → Interval floats → Decision → Type 0
  Decides direction i ship = Shows direction ship i
  Decides direction i revert = Shows direction revert i
  Decides direction i inconclusive = Straddles i

  pub target_decision-Decides :
      (direction : Direction) (i : Interval floats)
      → Decides direction i (target_decision floats direction i)
  target_decision-Decides increase i =
      chosen_by (Decides increase i) (lt num num.zero i.lower) (lt num i.upper num.zero) (λ e. e)
        (λ e. e) (λ e f. (e, f))
  target_decision-Decides decrease i =
      chosen_by (Decides decrease i) (lt num i.upper num.zero) (lt num num.zero i.lower) (λ e. e)
        (λ e. e) (λ e f. (f, e))

  -- An arm without a sample leaves everything open.
  evaluate-samples :
      (t : SequentialTest floats)
      → ((0 < (evaluate floats t).control_samples) × (0 < (evaluate floats t).variant_samples))
        ⊎ Straddles (evaluate floats t).interval
  unfolding evaluate
  evaluate-samples t = elim (Bool-cases (eqb t.control.n 0 || eqb t.variant.n 0)) [
    | inl empty ↦
        rw empty
          (inr (rw (floats.minus_infinity_le num.zero) refl, rw (floats.le_infinity num.zero) refl))
    | inr sampled ↦ rw sampled (inl (ground arith, ground arith))
  ]

  Shows-moved :
      (direction : Direction) (d : Decision) (i : Interval floats)
      → Shows direction d i
      → Straddles i
      → ⊥
  Shows-moved increase ship i s (low, high) = cc
  Shows-moved increase revert i s (low, high) = cc
  Shows-moved decrease ship i s (low, high) = cc
  Shows-moved decrease revert i s (low, high) = cc
  Shows-moved direction inconclusive i s b = s

  abbrev pub IsSampled : Evaluation floats → Type 0
  IsSampled e = (0 < e.control_samples) × (0 < e.variant_samples)

  run_sequence-samples :
      (obs : ArmObservations floats)
      → IsSampled (run_sequence floats obs) ⊎ Straddles (run_sequence floats obs).interval
  unfolding run_sequence
  run_sequence-samples obs = evaluate-samples _

  pub Shows-IsSampled :
      (direction : Direction) (d : Decision) (obs : ArmObservations floats)
      → Shows direction d (run_sequence floats obs).interval
      → IsSampled (run_sequence floats obs)
  Shows-IsSampled direction d obs s = elim (run_sequence-samples obs) [
    | inl sampled ↦ sampled
    | inr open' ↦ absurd (Shows-moved direction d (run_sequence floats obs).interval s open')
  ]
