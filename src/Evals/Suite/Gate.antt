-- ===== src/Evals/Suite/Gate.antt =====
-- packages/evals/src/suite.ts: what the gate says of a suite's run, in terms of the dataset and the
-- scorers alone.
use mathlib.Core.Path.{subst}
use toqar.Common.{
  ◌≡◌, refl, sym, ap, ◌∙◌, String, Bool, true, ◌&&◌, Option, none, some, List, [], ◌∷◌, ◌++◌, ◌==◌,
  if◌then◌else◌, eqb, length, filter, map, arith, eq_iff, all, Bool-cases, inl, inr,
}
use toqar.Common.Numbers.{Number, lt}
use toqar.Evals.Scorers.{VersionTuple, CodeScorer, run_code_scorer}
use toqar.Evals.Suite.{
  Failure, is_failing, case_ids, DatasetCase, Dataset, Threshold, CaseScore, ScorerStat, scores_of,
  is_of, mean_of, stat_of, run_suite, find_stat, failures_for, failures_of, evaluate_gate,
}
use toqar.Evals.Suite.Columns.{
  filter-both, IsDistinct, find_scorer, column, filter-scores_of, mean_on, mean_of-column,
}

module _ (num : Number) where
  open num use {N, zero, of_ℕ, add, div, le}

  module _ (versions : VersionTuple) (dataset : Dataset) where
    -- A threshold that names no scorer of the suite is cleared.
    abbrev pub clears_with : Threshold num → Option (CodeScorer num) → Bool
    clears_with t none = true
    clears_with t (some s) = le t.min_mean (mean_on num versions dataset s dataset.cases)

    module _ (scorers : List (CodeScorer num)) where
      abbrev pub clears : Threshold num → Bool
      clears t = clears_with t (find_scorer num t.scorer_id scorers)

      abbrev all_scores : List (CaseScore num)
      all_scores = scores_of num versions dataset scorers dataset.cases

      abbrev stat_if : Option (CodeScorer num) → Option (ScorerStat num)
      stat_if none = none
      stat_if (some s) = some (stat_of num all_scores s)

      find_stat-map :
          (id : String) (rest : List (CodeScorer num))
          → find_stat num id (map (stat_of num all_scores) rest) ≡ stat_if (find_scorer num id rest)
      unfolding find_stat find_scorer
      find_stat-map id [] = refl
      find_stat-map id (s ∷ ss) = elim (Bool-cases (s.id == id)) [
        | inl here ↦ rw here refl
        | inr there ↦ rw there (find_stat-map id ss)
      ]

      find_scorer-id :
          (id : String) (rest : List (CodeScorer num)) (s : CodeScorer num)
          → find_scorer num id rest ≡ some s
          → s.id ≡ id
      unfolding find_scorer
      find_scorer-id id [] s h = cc
      find_scorer-id id (r ∷ rs) s h = elim (Bool-cases (r.id == id)) [
        | inl here ↦ let e : r ≡ s = cc (rw here at h) in rw (← e) ((eq_iff r.id id).0 here)
        | inr there ↦ find_scorer-id id rs s (rw there at h)
      ]

      -- The cases on which a scorer stays below a minimum.
      abbrev pub low_cases : CodeScorer num → N → List DatasetCase → List String
      low_cases s least [] = []
      low_cases s least (c ∷ cases) =
          let rest = low_cases s least cases in
          if lt num (s.score c.trajectory).value least then c.case_id ∷ rest else rest

      low_cases-column :
          (t : Threshold num) (s : CodeScorer num) (cases : List DatasetCase)
          → s.id ≡ t.scorer_id
          → case_ids num (filter (is_failing num t) (column num versions dataset s cases))
            ≡ low_cases s t.min_mean cases
      unfolding run_code_scorer
      low_cases-column t s [] e = refl
      low_cases-column t s (c ∷ cases) e =
          let same = (eq_iff s.id t.scorer_id).1 e in
          elim (Bool-cases (lt num (s.score c.trajectory).value t.min_mean)) [
            | inl low ↦
                rw same (rw low (ap (λ ids. c.case_id ∷ ids) (low_cases-column t s cases e)))
            | inr high ↦ rw same (rw high (low_cases-column t s cases e))
          ]

      -- What the gate has to report of a threshold.
      abbrev pub due : Threshold num → Option (CodeScorer num) → List (Failure num)
      due t none = []
      due t (some s) =
          if le t.min_mean (mean_on num versions dataset s dataset.cases)
          then []
          else record {
            scorer_id = t.scorer_id;
            mean = mean_on num versions dataset s dataset.cases;
            min_mean = t.min_mean;
            failing_cases = low_cases s t.min_mean dataset.cases;
          }
            ∷ []

      abbrev pub all_due : List (Threshold num) → List (Failure num)
      all_due [] = []
      all_due (t ∷ ts) = due t (find_scorer num t.scorer_id scorers) ++ all_due ts

      failing_ids :
          (t : Threshold num) (s : CodeScorer num)
          → IsDistinct num scorers
          → find_scorer num t.scorer_id scorers ≡ some s
          → case_ids num (filter (is_failing num t) all_scores)
            ≡ low_cases s t.min_mean dataset.cases
      failing_ids t s d h =
          ap (case_ids num) (
            filter-both (is_of num t.scorer_id) (λ sc. lt num sc.score.value t.min_mean) all_scores
            ∙ ap (filter (is_failing num t))
                (filter-scores_of num versions dataset t.scorer_id s scorers dataset.cases d h))
          ∙ low_cases-column t s dataset.cases (find_scorer-id t.scorer_id scorers s h)

      failures_for-due :
          (t : Threshold num) (o : Option (CodeScorer num))
          → IsDistinct num scorers
          → find_scorer num t.scorer_id scorers ≡ o
          → failures_for num all_scores t (stat_if o) ≡ due t o
      failures_for-due t none d h = refl
      failures_for-due t (some s) d h =
          let id = find_scorer-id t.scorer_id scorers s h in
          let own =
            filter-scores_of num versions dataset s.id s scorers dataset.cases d
              (subst (λ k. find_scorer num k scorers ≡ some s) (sym id) h) in
          let mean = ap (mean_of num) own ∙ mean_of-column num versions dataset s dataset.cases in
          rw mean (rw (failing_ids t s d h) refl)

      failures_of-due :
          (thresholds : List (Threshold num))
          → IsDistinct num scorers
          → failures_of num (run_suite num dataset scorers versions) thresholds ≡ all_due thresholds
      unfolding failures_of run_suite
      failures_of-due [] d = refl
      failures_of-due (t ∷ ts) d = rw (find_stat-map t.scorer_id scorers) (
          rw (failures_for-due t (find_scorer num t.scorer_id scorers) d refl) (
            ap (λ rest. due t (find_scorer num t.scorer_id scorers) ++ rest)
              (failures_of-due ts d)))

      all_due-clears :
          (thresholds : List (Threshold num))
          → eqb (length (all_due thresholds)) 0 ≡ all clears thresholds
      all_due-clears [] = refl
      all_due-clears (t ∷ ts) =
          due-clears t (find_scorer num t.scorer_id scorers) ts (all_due-clears ts)
        where
          due-clears :
              (t : Threshold num) (o : Option (CodeScorer num)) (ts : List (Threshold num))
              → eqb (length (all_due ts)) 0 ≡ all clears ts
              → eqb (length (due t o ++ all_due ts)) 0 ≡ clears_with t o && all clears ts
          due-clears t none ts h = h
          due-clears t (some s) ts h =
              elim (Bool-cases (le t.min_mean (mean_on num versions dataset s dataset.cases))) [
                | inl clear ↦ rw clear h
                | inr low ↦ rw low (ground arith)
              ]

      -- The gate on a suite's run, where no two scorers share an id: it passes just if each threshold
      -- that names a scorer of the suite is at most that scorer's mean over the dataset's cases, a
      -- threshold that names none being cleared; and it reports, for each that is not, the mean and
      -- exactly the cases that score below the threshold.
      pub evaluate_gate-run_suite :
          (thresholds : List (Threshold num))
          → IsDistinct num scorers
          → ((evaluate_gate num (run_suite num dataset scorers versions) thresholds).pass
              ≡ all clears thresholds)
            × ((evaluate_gate num (run_suite num dataset scorers versions) thresholds).failures
                ≡ all_due thresholds)
      unfolding evaluate_gate
      evaluate_gate-run_suite thresholds d = (
        ap (λ fs. eqb (length fs) 0) (failures_of-due thresholds d) ∙ all_due-clears thresholds,
        failures_of-due thresholds d,
      )
