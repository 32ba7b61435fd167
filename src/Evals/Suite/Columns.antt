-- ===== src/Evals/Suite/Columns.antt =====
-- packages/evals/src/suite.ts: the scores of one scorer among those of a suite.
use toqar.Common.{
  suc, ◌≡◌, refl, ap, ◌∙◌, String, Bool, false, ◌&&◌, Option, none, some, List, [], ◌∷◌, ◌++◌, ◌==◌,
  if◌then◌else◌, eqb, length, filter, map, arith, eq_iff, includes, Bool-cases, inl, inr,
}
use toqar.Common.Numbers.{Number}
use toqar.Evals.Scorers.{VersionTuple, CodeScorer, run_code_scorer}
use toqar.Evals.Suite.{
  DatasetCase, Dataset, CaseScore, case_score, scores_of, sum_from, is_of, mean_of,
}

filter-append :
    {A : Type 0} (p : A → Bool) (xs ys : List A) → filter p (xs ++ ys) ≡ filter p xs ++ filter p ys
filter-append p [] ys = refl
filter-append p (x ∷ xs) ys = elim (Bool-cases (p x)) [
  | inl holds ↦ rw holds (ap (λ t. x ∷ t) (filter-append p xs ys))
  | inr fails ↦ rw fails (filter-append p xs ys)
]

-- A test that holds only where `p` does need not look elsewhere.
pub filter-both :
    {A : Type 0} (p q : A → Bool) (xs : List A)
    → filter (λ x. p x && q x) xs ≡ filter (λ x. p x && q x) (filter p xs)
filter-both p q [] = refl
filter-both p q (x ∷ xs) = elim (Bool-cases (p x)) [
  | inl holds ↦ elim (Bool-cases (q x)) [
    | inl kept ↦ rw holds (rw kept (rw holds (ap (λ t. x ∷ t) (filter-both p q xs))))
    | inr dropped ↦ rw holds (rw dropped (rw holds (filter-both p q xs)))
  ]
  | inr fails ↦ rw fails (filter-both p q xs)
]

module _ (num : Number) where
  open num use {N, zero, of_ℕ, add, div, le}

  abbrev pub ids : List (CodeScorer num) → List String
  ids [] = []
  ids (s ∷ ss) = s.id ∷ ids ss

  -- No two scorers of a suite have the same id.
  abbrev pub IsDistinct : List (CodeScorer num) → Type 0
  IsDistinct [] = Unit
  IsDistinct (s ∷ ss) = (includes (ids ss) s.id ≡ false) × IsDistinct ss

  unfoldable pub find_scorer : String → List (CodeScorer num) → Option (CodeScorer num)
  find_scorer id [] = none
  find_scorer id (s ∷ ss) = if s.id == id then some s else find_scorer id ss

  module _ (versions : VersionTuple) (dataset : Dataset) where
    abbrev pub row : DatasetCase → CodeScorer num → CaseScore num
    row c s = case_score num versions dataset c s

    filter-row_absent :
        (id : String) (c : DatasetCase) (scorers : List (CodeScorer num))
        → includes (ids scorers) id ≡ false
        → filter (is_of num id) (map (row c) scorers) ≡ []
    unfolding run_code_scorer
    filter-row_absent id c [] h = refl
    filter-row_absent id c (s ∷ ss) h = ground (arith, filter-row_absent id c ss)

    -- Of one case's scores, just one is of a scorer.
    filter-row :
        (id : String) (s : CodeScorer num) (c : DatasetCase) (scorers : List (CodeScorer num))
        → IsDistinct scorers
        → find_scorer id scorers ≡ some s
        → filter (is_of num id) (map (row c) scorers) ≡ row c s ∷ []
    unfolding run_code_scorer find_scorer
    filter-row id s c [] d h = cc
    filter-row id s c (r ∷ rs) (fresh, d) h = elim (Bool-cases (r.id == id)) [
      | inl here ↦
          let e : r ≡ s = cc (rw here at h) in
          let absent = filter-row_absent id c rs (rw ((eq_iff r.id id).0 here) at fresh) in
          rw here (rw absent (rw e refl))
      | inr there ↦ rw there (filter-row id s c rs d (rw there at h))
    ]

    abbrev pub column : CodeScorer num → List DatasetCase → List (CaseScore num)
    column s [] = []
    column s (c ∷ cases) = row c s ∷ column s cases

    pub filter-scores_of :
        (id : String) (s : CodeScorer num) (scorers : List (CodeScorer num))
        (cases : List DatasetCase)
        → IsDistinct scorers
        → find_scorer id scorers ≡ some s
        → filter (is_of num id) (scores_of num versions dataset scorers cases) ≡ column s cases
    unfolding scores_of
    filter-scores_of id s scorers [] d h = refl
    filter-scores_of id s scorers (c ∷ cases) d h =
        filter-append (is_of num id) (map (row c) scorers)
          (scores_of num versions dataset scorers cases)
        ∙ rw (filter-row id s c scorers d h)
            (ap (λ t. row c s ∷ t) (filter-scores_of id s scorers cases d h))

    -- The sum and the mean of a scorer's values on the cases of a dataset.
    abbrev pub total_on : CodeScorer num → N → List DatasetCase → N
    total_on s n [] = n
    total_on s n (c ∷ cases) = total_on s (add n (s.score c.trajectory).value) cases

    abbrev pub mean_on : CodeScorer num → List DatasetCase → N
    mean_on s cases =
        if eqb (length cases) 0 then zero else div (total_on s zero cases) (of_ℕ (length cases))

    sum_from-column :
        (s : CodeScorer num) (n : N) (cases : List DatasetCase)
        → sum_from num n (column s cases) ≡ total_on s n cases
    unfolding sum_from run_code_scorer
    sum_from-column s n [] = refl
    sum_from-column s n (c ∷ cases) = sum_from-column s (add n (s.score c.trajectory).value) cases

    length-column :
        (s : CodeScorer num) (cases : List DatasetCase) → length (column s cases) ≡ length cases
    length-column s [] = refl
    length-column s (c ∷ cases) = ap suc (length-column s cases)

    pub mean_of-column :
        (s : CodeScorer num) (cases : List DatasetCase)
        → mean_of num (column s cases) ≡ mean_on s cases
    mean_of-column s cases = rw (length-column s cases) (rw (sum_from-column s zero cases) refl)
