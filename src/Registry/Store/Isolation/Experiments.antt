-- ===== src/Registry/Store/Isolation/Experiments.antt =====
-- packages/registry-service/src/store.ts: the methods on experiments are scoped.
use toqar.Common.{String, Option, none, some, first, ◌==◌}
use toqar.Json.{Value}
use toqar.Registry.Inputs.{StatusChange, parse_status}
use toqar.Registry.Trials.{parse_experiment, Verdict, parse_verdict}
use toqar.Registry.Table.Local.{insert-IsLocal, update-IsLocal, upsert-IsLocal}
use toqar.Registry.Table.{newest_first}
use toqar.Registry.Store.{ExperimentRow}
use toqar.Registry.Store.Experiments.{
  create_experiment, find_experiment, update_experiments, update_found, update_experiment,
  conclude_found, write_verdict, list_experiments, found_verdict, with_verdict, get_experiment,
}
use toqar.Registry.Store.Isolation.{
  IsScoped, pure-IsScoped, parsed-IsScoped, bind-IsScoped, then-IsScoped, write-IsScoped,
  select-IsScoped,
}
use toqar.Registry.Store.Isolation.Tables.{experiments_table, verdicts_table, audit-IsScoped}

module _ (t : String) where
  pub create_experiment-IsScoped :
      (value : Value) (actor uuid : String) → IsScoped t (create_experiment t value actor uuid)
  unfolding create_experiment
  create_experiment-IsScoped value actor uuid =
      bind-IsScoped t _ _ (parsed-IsScoped t (parse_experiment value)) λ experiment.
        then-IsScoped t _ _ (write-IsScoped t experiments_table _ (insert-IsLocal t _))
          (then-IsScoped t _ _ (audit-IsScoped t actor _ _ _ _) (pure-IsScoped t _))

  find_experiment-IsScoped : (id : String) → IsScoped t (find_experiment t id)
  find_experiment-IsScoped id = select-IsScoped t experiments_table _ first

  update_experiments-IsScoped :
      (id : String) (f : ExperimentRow → ExperimentRow) → IsScoped t (update_experiments t id f)
  update_experiments-IsScoped id f =
      write-IsScoped t experiments_table _ (update-IsLocal t (λ r. r.experiment_id == id) f)

  update_found-IsScoped :
      (id : String) (change : StatusChange) (actor : String) (found : Option ExperimentRow)
      → IsScoped t (update_found t id change actor found)
  update_found-IsScoped id change actor none = pure-IsScoped t _
  update_found-IsScoped id change actor (some r) =
      then-IsScoped t _ _ (update_experiments-IsScoped id _)
        (then-IsScoped t _ _ (audit-IsScoped t actor _ _ _ _) (pure-IsScoped t _))

  pub update_experiment-IsScoped :
      (id : String) (value : Value) (actor : String)
      → IsScoped t (update_experiment t id value actor)
  unfolding update_experiment
  update_experiment-IsScoped id value actor =
      bind-IsScoped t _ _ (parsed-IsScoped t (parse_status value)) λ change.
        bind-IsScoped t _ _ (find_experiment-IsScoped id)
          λ found. update_found-IsScoped id change actor found

  conclude_found-IsScoped :
      (id : String) (verdict : Verdict) (actor : String) (found : Option ExperimentRow)
      → IsScoped t (conclude_found t id verdict actor found)
  conclude_found-IsScoped id verdict actor none = pure-IsScoped t _
  conclude_found-IsScoped id verdict actor (some r) =
      then-IsScoped t _ _ (write-IsScoped t verdicts_table _ (upsert-IsLocal t _ _ _)) (
        then-IsScoped t _ _ (update_experiments-IsScoped id _)
          (then-IsScoped t _ _ (audit-IsScoped t actor _ _ _ _) (pure-IsScoped t _)))

  pub write_verdict-IsScoped :
      (id : String) (value : Value) (actor : String) → IsScoped t (write_verdict t id value actor)
  unfolding write_verdict
  write_verdict-IsScoped id value actor =
      bind-IsScoped t _ _ (parsed-IsScoped t (parse_verdict value)) λ verdict.
        bind-IsScoped t _ _ (find_experiment-IsScoped id)
          λ found. conclude_found-IsScoped id verdict actor found

  pub list_experiments-IsScoped : IsScoped t (list_experiments t)
  unfolding list_experiments
  list_experiments-IsScoped = select-IsScoped t experiments_table _ newest_first

  with_verdict-IsScoped :
      (id : String) (found : Option ExperimentRow) → IsScoped t (with_verdict t id found)
  with_verdict-IsScoped id none = pure-IsScoped t _
  with_verdict-IsScoped id (some r) =
      select-IsScoped t verdicts_table _ λ rows. some (r, found_verdict (first rows))

  pub get_experiment-IsScoped : (id : String) → IsScoped t (get_experiment t id)
  unfolding get_experiment
  get_experiment-IsScoped id =
      bind-IsScoped t _ _ (find_experiment-IsScoped id) λ found. with_verdict-IsScoped id found
