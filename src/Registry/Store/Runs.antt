-- ===== src/Registry/Store/Runs.antt =====
-- packages/registry-service/src/store.ts: instrumentation runs and their outcomes.
use Prim.Native.String.{◌++◌}
use toqar.Common.{
  first, ℕ, String, Bool, true, false, Option, none, some, List, ◌==◌, ◌||◌, filter, length,
}
use toqar.Json.{Value, null, str, obj, field, end}
use toqar.Registry.Inputs.{parse_outcome}
use toqar.Registry.Requests.{NewRun, parse_run}
use toqar.Registry.Table.{select, insert, update, newest_first}
use toqar.Registry.Store.{RunRow, Operation, Tx, ◌>>=◌, ◌>>◌, pure, read, write, parsed, audit}

-- A text, or the `null` that stands for its absence.
abbrev pub str_or_null : Option String → Value
str_or_null none = null
str_or_null (some s) = str s

abbrev run_row : String → NewRun → RunRow
run_row run_id run = record {
  run_id = run_id;
  repo = run.repo;
  pr_url = run.pr_url;
  outcome = "delivered";
  tokens_in = run.tokens_in;
  tokens_out = run.tokens_out;
  cost_usd = run.cost_usd;
  model = run.model;
  agent_version = run.agent_version;
}

abbrev run_outcome : String → String → Value
run_outcome run_id outcome = obj (field "run_id" (str run_id) (field "outcome" (str outcome) end))

-- `uuid` is the random part of the run's id.
unfoldable pub record_instrument_run : String → Value → String → String → Tx String
record_instrument_run tenant value actor uuid = do
  run ← parsed (parse_run value)
  write (λ db. record db { runs = insert tenant (run_row ("run_" ++ uuid) run) db.runs })
  audit tenant actor Operation.instrument_run run.repo null (
      obj (
        field "run_id" (str ("run_" ++ uuid))
          (field "pr_url" (str_or_null run.pr_url) (field "outcome" (str "delivered") end))))
  pure ("run_" ++ uuid)

abbrev pub update_run : String → String → String → String → Option RunRow → Tx Bool
update_run tenant run_id outcome actor none = pure false
update_run tenant run_id outcome actor (some r) = do
  write (λ db. record db {
    runs = update tenant (λ q. q.run_id == run_id) (λ q. record q { outcome = outcome }) db.runs;
  })
  audit tenant actor Operation.instrument_run r.repo (run_outcome run_id r.outcome)
      (run_outcome run_id outcome)
  pure true

unfoldable pub update_run_outcome : String → String → Value → String → Tx Bool
update_run_outcome tenant run_id value actor = do
  outcome ← parsed (parse_outcome value)
  found ← read (λ db. first (select tenant (λ r. r.run_id == run_id) db.runs))
  update_run tenant run_id outcome actor found

pub record MergeRate : Type 0 where
  pub merged : ℕ
  pub delivered : ℕ

abbrev is_merged : RunRow → Bool
is_merged r = (r.outcome == "merged") || (r.outcome == "edited_then_merged")

abbrev pub with_rate : List RunRow → List RunRow × MergeRate
with_rate rows = (rows, record { merged = length (filter is_merged rows); delivered = length rows })

unfoldable pub list_instrument_runs : String → Tx (List RunRow × MergeRate)
list_instrument_runs tenant = do
  rows ← read (λ db. newest_first (select tenant (λ r. true) db.runs))
  pure (with_rate rows)
