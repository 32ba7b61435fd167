-- ===== src/Cli/Diff/Tests.antt =====
-- The difference at concrete inputs: one event to add, one to modify, one to remove, one to keep.
use mathlib.Core.Path.{subst, fun_ext}
use toqar.Common.{
  false, All, Option-cases, ◌∙◌, ℕ, ◌≡◌, refl, String, true, none, List, [], ◌∷◌, ◌==◌, arith,
  Bool-cases, inl, inr, eq_iff, length,
}
use toqar.Registry.Schema.{RegistryEntry, Status, active, proposed, deprecated, TrackingPlan}
use toqar.Registry.Schema.RoundTrip.{IsEntry}
use toqar.Registry.Store.Entries.Effects.{Registered}
use toqar.Cli.Diff.{by_event, compute_diff, is_empty_diff, same_entry}
use toqar.Cli.Diff.Lookup.{Distinct}
use toqar.Cli.Diff.Merging.{json_of, Mirrors, synced}
use toqar.Cli.Diff.Convergence.{Syncs, compute_diff-Syncs}
use toqar.Cli.Diff.Settled.{IsValidFile, is_empty_diff-compute_diff}

abbrev entry : String → String → Status → RegistryEntry
entry event description status = record {
  event = event;
  description = description;
  journey = "lead_outreach";
  owner_metric = "task_success_rate";
  hypothesis = none;
  status = status;
  since_version = "1.0";
}

abbrev file : List RegistryEntry
file = entry "answered" "a reply came" active ∷ entry "sent" "sent at last" active ∷ []

abbrev backend : List RegistryEntry
backend =
    entry "sent" "sent" active ∷ entry "opened" "opened" active ∷ entry "old" "old" proposed ∷ []

abbrev wording : String → ℕ → ℕ → ℕ → String
wording repo a m r = repo

abbrev diff : TrackingPlan
diff = compute_diff wording file backend "acme" "registry.json" "now"

abbrev counts : TrackingPlan → ℕ × ℕ × ℕ
counts plan = (length plan.added, length plan.modified, length plan.removed)

diff_tests :
    (counts diff ≡ (1, 1, 1))
    × (is_empty_diff diff ≡ false)
    × (is_empty_diff (compute_diff wording file file "acme" "registry.json" "now") ≡ true)
unfolding compute_diff by_event same_entry is_empty_diff
diff_tests = (refl, refl, refl)

entry-IsEntry :
    (event description : String) (status : Status)
    → (event == "") ≡ false
    → (description == "") ≡ false
    → IsEntry (entry event description status)
entry-IsEntry event description status h k = record {
  event = λ e. ground (arith, eq_iff event "");
  description = λ e. ground (arith, eq_iff description "");
  journey = λ e. cc;
  owner_metric = λ e. cc;
  hypothesis = λ e. cc;
  since_version = λ e. cc;
}

valid_of_All : (es : List RegistryEntry) → All IsEntry es → IsValidFile es
unfolding by_event
valid_of_All [] v k e h = cc
valid_of_All (x ∷ xs) (v, vs) k e h = elim (Option-cases (by_event xs k)) [
  | inl missing ↦ elim (Bool-cases (x.event == k)) [
    | inl same ↦ let it : x ≡ e = ground arith in subst IsEntry it v
    | inr other ↦ absurd (ground arith)
  ]
  | inr (y, found) ↦ valid_of_All xs vs k e (found ∙ ground arith)
]

file-IsValidFile : IsValidFile file
file-IsValidFile =
    valid_of_All file (entry-IsEntry _ _ _ refl refl, (entry-IsEntry _ _ _ refl refl, tt))

backend-IsValidFile : IsValidFile backend
backend-IsValidFile = valid_of_All backend (
  entry-IsEntry _ _ _ refl refl,
  (entry-IsEntry _ _ _ refl refl, (entry-IsEntry _ _ _ refl refl, tt)),
)

abbrev registered : Registered
registered k = json_of (by_event backend k)

file-Distinct : Distinct file
unfolding by_event
file-Distinct = (refl, (refl, tt))

backend-Mirrors : Mirrors backend registered
unfolding by_event
backend-Mirrors = record {
  entries = refl;
  distinct = (refl, (refl, (refl, tt)));
  valid = backend-IsValidFile;
}

compute_diff-Syncs_example :
    Syncs (compute_diff wording file backend "acme" "registry.json" "now") file backend registered
compute_diff-Syncs_example =
    compute_diff-Syncs wording file backend "acme" "registry.json" "now" registered file-Distinct
      backend-Mirrors

-- What the backend returns after the sync.
abbrev after : List RegistryEntry
after =
    entry "opened" "opened" deprecated
    ∷ entry "old" "old" proposed
    ∷ entry "answered" "a reply came" active
    ∷ entry "sent" "sent at last" active
    ∷ []

after-Mirrors : Mirrors after (synced file backend)
unfolding by_event
after-Mirrors = record {
  entries = fun_ext (λ k. ground arith);
  distinct = (refl, (refl, (refl, (refl, tt))));
  valid = valid_of_All after (
    entry-IsEntry _ _ _ refl refl,
    (
      entry-IsEntry _ _ _ refl refl,
      (entry-IsEntry _ _ _ refl refl, (entry-IsEntry _ _ _ refl refl, tt)),
    ),
  );
}

is_empty_diff-compute_diff_example :
    is_empty_diff (compute_diff wording file after "acme" "registry.json" "now") ≡ true
is_empty_diff-compute_diff_example =
    is_empty_diff-compute_diff wording file backend after "acme" "registry.json" "now" file-Distinct
      file-IsValidFile backend-IsValidFile after-Mirrors
