-- ===== src/Registry/Store/Isolation/Runs.antt =====
-- packages/registry-service/src/store.ts: the methods on instrumentation runs are scoped.
use toqar.Common.{String, Option, none, some, first}
use toqar.Json.{Value}
use toqar.Registry.Inputs.{parse_outcome}
use toqar.Registry.Requests.{parse_run}
use toqar.Registry.Table.Local.{insert-IsLocal, update-IsLocal}
use toqar.Registry.Table.{newest_first}
use toqar.Registry.Store.{RunRow}
use toqar.Registry.Store.Runs.{
  record_instrument_run, update_run, update_run_outcome, list_instrument_runs, with_rate,
}
use toqar.Registry.Store.Isolation.{
  IsScoped, pure-IsScoped, parsed-IsScoped, bind-IsScoped, then-IsScoped, write-IsScoped,
  select-IsScoped,
}
use toqar.Registry.Store.Isolation.Tables.{runs_table, audit-IsScoped}

module _ (t : String) where
  pub record_instrument_run-IsScoped :
      (value : Value) (actor uuid : String) → IsScoped t (record_instrument_run t value actor uuid)
  unfolding record_instrument_run
  record_instrument_run-IsScoped value actor uuid =
      bind-IsScoped t _ _ (parsed-IsScoped t (parse_run value)) λ run.
        then-IsScoped t _ _ (write-IsScoped t runs_table _ (insert-IsLocal t _))
          (then-IsScoped t _ _ (audit-IsScoped t actor _ _ _ _) (pure-IsScoped t _))

  update_run-IsScoped :
      (run_id outcome actor : String) (found : Option RunRow)
      → IsScoped t (update_run t run_id outcome actor found)
  update_run-IsScoped run_id outcome actor none = pure-IsScoped t _
  update_run-IsScoped run_id outcome actor (some r) =
      then-IsScoped t _ _ (write-IsScoped t runs_table _ (update-IsLocal t _ _))
        (then-IsScoped t _ _ (audit-IsScoped t actor _ _ _ _) (pure-IsScoped t _))

  pub update_run_outcome-IsScoped :
      (run_id : String) (value : Value) (actor : String)
      → IsScoped t (update_run_outcome t run_id value actor)
  unfolding update_run_outcome
  update_run_outcome-IsScoped run_id value actor =
      bind-IsScoped t _ _ (parsed-IsScoped t (parse_outcome value)) λ outcome.
        bind-IsScoped t _ _ (select-IsScoped t runs_table _ first)
          λ found. update_run-IsScoped run_id outcome actor found

  pub list_instrument_runs-IsScoped : IsScoped t (list_instrument_runs t)
  unfolding list_instrument_runs
  list_instrument_runs-IsScoped =
      select-IsScoped t runs_table _ λ rows. with_rate (newest_first rows)
