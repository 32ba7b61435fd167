-- ===== src/Experiments/Agent/Gate.antt =====
-- packages/experiment-agent/src/agent.ts: the gate before an experiment.
use toqar.Common.{
  ℕ, ◌≤◌, ◌<◌, ◌≡◌, refl, ◌⊎◌, inl, inr, some, List, ◌∷◌, ltb, arith, Bool-cases, Option-cases,
}
use toqar.Experiments.Sequential.{Floats}
use toqar.Experiments.Trial.{
  Hypothesis, running, StartResult, refused, started, Call, asked_level, created, assembled,
  updated, World, Run, returns, throws,
}
use toqar.Experiments.Agent.{propose, start_experiment}

module _ (floats : Floats) (world : World floats) (hypothesis : Hypothesis) where
  -- What a start may have done, by how it ended. Below level 2 nothing but the level was asked for.
  abbrev pub IsGated : List (Call floats) → Run floats StartResult → Type 0
  IsGated h (returns (refused level) h') =
      (world.level ≡ some level) × (level < 2) × (h' ≡ asked_level ∷ h)
  IsGated h (returns (started id pr) h') =
      ((level : ℕ) × (world.level ≡ some level) × (2 ≤ level))
      × (world.create ≡ some id)
      × (world.assemble ≡ some pr)
      × (h' ≡ updated id running (some pr) ∷ assembled ∷ created hypothesis ∷ asked_level ∷ h)
  IsGated h (throws h') =
      (h' ≡ asked_level ∷ h) ⊎ ((level : ℕ) × (world.level ≡ some level) × (2 ≤ level))

  propose-IsGated :
      (h : List (Call floats)) (level : ℕ)
      → world.level ≡ some level
      → 2 ≤ level
      → IsGated h (propose floats world hypothesis (asked_level ∷ h))
  propose-IsGated h level l e = elim (Option-cases world.create) [
    | inl none' ↦ simp none' (inr (level, l, e))
    | inr (id, made) ↦ simp made (elim (Option-cases world.assemble) [
      | inl none' ↦ simp none' (inr (level, l, e))
      | inr (pr, opened) ↦
          simp opened (elim (Bool-cases (world.accepts (updated id running (some pr)))) [
            | inl taken ↦ simp taken ((level, l, e), made, opened, refl)
            | inr lost ↦ simp lost (inr (level, l, e))
          ])
    ])
  ]

  -- Below autonomy level 2, and where the level cannot be read, a start asks for the level and does
  -- nothing else. At level 2 or above one that succeeds has created the experiment, assembled the pull
  -- request and recorded it as running, in this order and with the ids that these calls gave.
  pub start_experiment-IsGated :
      (h : List (Call floats)) → IsGated h (start_experiment floats world hypothesis h)
  unfolding start_experiment
  start_experiment-IsGated h = elim (Option-cases world.level) [
    | inl failed ↦ simp failed (inl refl)
    | inr (level, l) ↦ elim (Bool-cases (ltb level 2)) [
      | inl low ↦ simp (l, low) (refl, ground arith, refl)
      | inr high ↦ simp (l, high) (propose-IsGated h level l (ground arith))
    ]
  ]
