-- ===== src/Registry/Store/Experiments.antt =====
-- packages/registry-service/src/store.ts: experiments, their transitions and their verdicts. An
-- experiment's id is the key of its table and of the table of verdicts, for all tenants; the model
-- looks for the row of the tenant whose experiment it is.
use Prim.Native.String.{◌++◌}
use toqar.Common.{first, String, Bool, true, false, Option, none, some, List, ◌==◌}
use toqar.Json.{Value, null, str, obj, field, end}
use toqar.Registry.Inputs.{StatusChange, parse_status}
use toqar.Registry.Trials.{parse_experiment, experiment_json, Verdict, parse_verdict, verdict_json}
use toqar.Registry.Table.{select, insert, update, upsert, newest_first}
use toqar.Registry.Store.{
  ExperimentRow, VerdictRow, Operation, Tx, ◌>>=◌, ◌>>◌, pure, read, write, parsed, audit,
}

-- `uuid` is the random part of the experiment's id.
unfoldable pub create_experiment : String → Value → String → String → Tx String
create_experiment tenant value actor uuid = do
  experiment ← parsed (parse_experiment value)
  write (λ db. record db {
    experiments =
        insert tenant
          (record {
            experiment_id = "exp_" ++ uuid;
            experiment = experiment_json experiment;
            status = "created";
            variant_pr_url = none;
          })
          db.experiments;
  })
  audit tenant actor Operation.experiment ("exp_" ++ uuid) null (
      obj
        (field "action" (str "created") (field "target_metric" (str experiment.target_metric) end)))
  pure ("exp_" ++ uuid)

-- `COALESCE`.
abbrev or_else : Option String → Option String → Option String
or_else none old = old
or_else (some new) old = some new

abbrev pub changed_row : StatusChange → ExperimentRow → ExperimentRow
changed_row change r = record r {
  status = change.status;
  variant_pr_url = or_else change.variant_pr_url r.variant_pr_url;
}

abbrev pub find_experiment : String → String → Tx (Option ExperimentRow)
find_experiment tenant id =
    read (λ db. first (select tenant (λ r. r.experiment_id == id) db.experiments))

abbrev pub update_experiments : String → String → (ExperimentRow → ExperimentRow) → Tx (Unit {0})
update_experiments tenant id f =
    write (λ db. record db {
      experiments = update tenant (λ r. r.experiment_id == id) f db.experiments;
    })

abbrev pub update_found : String → String → StatusChange → String → Option ExperimentRow → Tx Bool
update_found tenant id change actor none = pure false
update_found tenant id change actor (some r) = do
  update_experiments tenant id (changed_row change)
  audit tenant actor Operation.experiment id (obj (field "status" (str r.status) end))
      (obj (field "action" (str "transition") (field "status" (str change.status) end)))
  pure true

unfoldable pub update_experiment : String → String → Value → String → Tx Bool
update_experiment tenant id value actor = do
  change ← parsed (parse_status value)
  found ← find_experiment tenant id
  update_found tenant id change actor found

abbrev pub concluded_row : ExperimentRow → ExperimentRow
concluded_row r = record r { status = "concluded" }

abbrev pub conclude_found : String → String → Verdict → String → Option ExperimentRow → Tx Bool
conclude_found tenant id verdict actor none = pure false
conclude_found tenant id verdict actor (some r) = do
  write (λ db. record db {
    verdicts =
        upsert tenant (λ w. w.experiment_id == id)
          (record { experiment_id = id; verdict = verdict_json verdict })
          (λ w. record w { verdict = verdict_json verdict }) db.verdicts;
  })
  update_experiments tenant id concluded_row
  audit tenant actor Operation.experiment id null
      (obj (field "action" (str "verdict") (field "decision" (str verdict.decision) end)))
  pure true

unfoldable pub write_verdict : String → String → Value → String → Tx Bool
write_verdict tenant id value actor = do
  verdict ← parsed (parse_verdict value)
  found ← find_experiment tenant id
  conclude_found tenant id verdict actor found

unfoldable pub list_experiments : String → Tx (List ExperimentRow)
list_experiments tenant = read (λ db. newest_first (select tenant (λ r. true) db.experiments))

abbrev pub found_verdict : Option VerdictRow → Option Value
found_verdict none = none
found_verdict (some w) = some w.verdict

abbrev pub with_verdict :
    String → String → Option ExperimentRow → Tx (Option (ExperimentRow × Option Value))
with_verdict tenant id none = pure none
with_verdict tenant id (some r) = do
  found ← read (λ db. first (select tenant (λ w. w.experiment_id == id) db.verdicts))
  pure (some (r, found_verdict found))

unfoldable pub get_experiment : String → String → Tx (Option (ExperimentRow × Option Value))
get_experiment tenant id = do found ← find_experiment tenant id; with_verdict tenant id found
