-- ===== src/Registry/Store/Isolation/Tests.antt =====
-- Calls of two tenants in turn.
use toqar.Common.{◌≡◌, refl, String, true, false, Option, none, some, [], ◌∷◌, map_get}
use toqar.Common.Options.{all_some}
use toqar.Json.{Value, null, num, str, obj, field, end}
use toqar.Registry.Crypto.{Platform}
use toqar.Registry.Inputs.{parse_outcome, parse_status}
use toqar.Registry.Requests.{parse_run}
use toqar.Registry.Trials.{parse_experiment, experiment_json}
use toqar.Registry.Table.{Rows, select, insert, update}
use toqar.Registry.Table.Local.{keep}
use toqar.Registry.Store.{empty_db, audit}
use toqar.Registry.Store.Runs.{record_instrument_run, update_run_outcome, list_instrument_runs}
use toqar.Registry.Store.Experiments.{create_experiment, update_experiment, get_experiment}
use toqar.Registry.Store.Calls.{
  Backend, flag, id, run_list, experiment, Call, serve, replied, answers_to, after_all,
  recording_run, updating_run, listing_runs, creating, transitioning, getting_experiment,
}
use toqar.Registry.Store.Isolation.{only}
use toqar.Registry.Store.Isolation.Calls.{told, answers_to-only}

opens : (k : String) (iv : Unit {0}) (b : String) → ◌≡◌ {A = Option String} (some b) (some b)
opens k iv b = refl

reads_back : (s : String) → s ≡ s
reads_back s = refl

abbrev plain : Platform
plain = record {
  Buffer = String;
  Iv = Unit {0};
  of_text = λ s. s;
  to_text = λ b. b;
  seal = λ k iv b. b;
  open_sealed = λ k s. some s;
  stringify = λ v. "{}";
  parse_json = λ s. some null;
  to_text-of_text = reads_back;
  open-seal = opens;
}

abbrev backend : Backend
backend = record {
  platform = plain;
  services = record {
    by_event = λ rows. rows;
    digest = λ entries. "fp_0";
    is_datetime = λ s. true;
  };
  hash = λ s. s;
  show = λ n. "n";
  in_unit = λ s. true;
  claims = λ s. [];
  is_tag = λ s. false;
  iso = λ s. s;
  elapsed = λ from to. num 0;
  kek = none;
  identity = λ n. n;
  stores = λ v. true;
}

abbrev run_value : Value
run_value = obj (field "repo" (str "acme/app") (field "agent_version" (str "0.3") end))

abbrev experiment_value : Value
experiment_value = obj (
    field "hypothesis" (str "shorter prompts") (
      field "target_metric" (str "task_success_rate")
        (field "direction" (str "increase") (field "flag_provider" (str "posthog") end))))

-- The second tenant writes to the first one's run and experiment, by their ids.
abbrev calls : Rows (Call backend)
calls =
    ("t1", recording_run run_value "ada" "1")
    ∷ ("t1", creating experiment_value "ada" "1")
    ∷ ("t2", updating_run "run_1" (str "rejected") "eve")
    ∷ ("t2", transitioning "exp_1" (obj (field "status" (str "stopped") end)) "eve")
    ∷ ("t1", updating_run "run_1" (str "merged") "ada")
    ∷ ("t2", listing_runs)
    ∷ ("t2", getting_experiment "exp_1")
    ∷ []

stranger_sees_nothing :
    answers_to backend "t2" calls empty_db
    ≡ replied (flag false)
      ∷ replied (flag false)
      ∷ replied (run_list ([], record { merged = 0; delivered = 0 }))
      ∷ replied (experiment none)
      ∷ []
unfolding answers_to serve record_instrument_run update_run_outcome list_instrument_runs
    create_experiment update_experiment get_experiment parse_run parse_outcome parse_experiment
    experiment_json parse_status map_get all_some select insert update audit
stranger_sees_nothing = refl

owner_is_heard :
    answers_to backend "t1" calls empty_db
    ≡ replied (id "run_1") ∷ replied (id "exp_1") ∷ replied (flag true) ∷ []
unfolding answers_to serve record_instrument_run update_run_outcome list_instrument_runs
    create_experiment update_experiment get_experiment parse_run parse_outcome parse_experiment
    experiment_json parse_status map_get all_some select insert update audit
owner_is_heard = refl

answers_to-only_example :
    (told backend (answers_to backend "t1" calls empty_db)
      ≡ told backend (answers_to backend "t1" (keep "t1" calls) (only "t1" empty_db)))
    × (only "t1" (after_all backend calls empty_db)
        ≡ after_all backend (keep "t1" calls) (only "t1" empty_db))
answers_to-only_example = answers_to-only backend "t1" calls empty_db
