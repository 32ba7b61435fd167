-- ===== src/Registry/Store/Findings/Tests.antt =====
-- A draft, published and filed.
use toqar.Common.{◌≡◌, refl, ◌⊎◌, ℕ, String, Bool, true, false, none, some, List, [], ◌∷◌, map_get}
use toqar.Common.Options.{all_some}
use toqar.Json.{Value, str, arr, obj, field, end, items_of}
use toqar.Registry.Findings.{
  is_query_id, parse_metric, parse_evidence, parse_finding, prose_of, uncited_of,
  validate_finding_citations,
}
use toqar.Registry.Store.{empty_db, err, failure}
use toqar.Registry.Store.Findings.{publish_finding}
use toqar.Registry.Store.Findings.Citing.{IsPublished, IsFiled, IsLost, publish_finding-filed}

abbrev metric : String → Value
metric shown = obj (
    field "label" (str "cost_per_task")
      (field "value" (str shown) (field "query_id" (str "q_1111111111111111") end)))

abbrev step : Value
step = obj (field "title" (str "Compare costs") (field "query_id" (str "q_1111111111111111") end))

abbrev draft : String → Value
draft shown = obj (
    field "layer" (str "O") (
      field "severity" (str "warning") (
        field "variant" (str "anomaly") (
          field "headline" (str "Cost rose") (
            field "summary" (str "To $0.52.") (
              field "metrics" (arr (items_of (metric shown ∷ [])))
                (field "evidence" (arr (items_of (step ∷ []))) end)))))))

-- The one claim of the draft's prose, and where it stands.
abbrev claims : String → List (ℕ × String)
claims prose = (13, "$0.52") ∷ []

abbrev no_tag : String → Bool
no_tag s = false

-- A registered value that is one digit of the claim cites it.
citing_tests :
    (validate_finding_citations claims no_tag (some (draft "$0.52")) ≡ none)
    × (validate_finding_citations claims no_tag (some (draft "2")) ≡ none)
    × (validate_finding_citations claims no_tag (some (draft "$0.47")) ≡ some ("$0.52" ∷ []))
unfolding validate_finding_citations parse_finding parse_metric parse_evidence is_query_id map_get
    all_some uncited_of prose_of
citing_tests = (refl, refl, refl)

abbrev takes : Value → Bool
takes v = true

publish_finding-filed_example :
    IsPublished claims no_tag takes "t1" (some (draft "$0.52")) "ada" "1" empty_db
    ⊎ IsFiled claims no_tag takes "t1" (some (draft "$0.52")) "ada" "1" empty_db
    ⊎ IsLost claims no_tag takes "t1" (some (draft "$0.52")) "ada" "1" empty_db
publish_finding-filed_example =
    publish_finding-filed claims no_tag takes "t1" (some (draft "$0.52")) "ada" "1" empty_db

-- A request with no body.
no_draft : publish_finding claims no_tag takes "t1" none "ada" "1" empty_db ≡ err failure
unfolding publish_finding validate_finding_citations
no_draft = refl
