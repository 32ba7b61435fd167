-- ===== src/Cli/Sync/Tests.antt =====
-- Runs of `toqar sync` at concrete inputs.
use toqar.Common.{
  ℕ, ◌≡◌, refl, String, Bool, true, none, some, [], ◌∷◌, ◌==◌, ◌&&◌, map_get, map_set, All,
}
use toqar.Json.{arr, item, nil}
use toqar.Registry.Schema.{RegistryEntry, active, entry_json, parse_entry}
use toqar.Registry.Schema.RoundTrip.{IsEntry, parse_entry-IsEntry}
use toqar.Cli.Diff.Lookup.{Distinct}
use toqar.Cli.Sync.Pulled.{after_pull, run_sync-pulled}
use toqar.Cli.Diff.{by_event, compute_diff, is_empty_diff}
use toqar.Cli.File.{
  json, no_file, unreadable, load_values, load_registry_file, insert_sorted, sort_by_event,
  write_registry_file,
}
use toqar.Cli.Sync.{
  Mode, diff, apply, pull, pulled, in_sync, exit_in_sync, write_file, ends, Reply, reply, api_error,
  SyncConfig, World, Output, applied, api_failed, file_invalid, no_token, SyncResult, run_sync,
}
use toqar.Cli.Sync.Requests.{IsDue, run_sync-IsDue}

abbrev sent : RegistryEntry
sent = record {
  event = "sent";
  description = "a message was sent";
  journey = "lead_outreach";
  owner_metric = "task_success_rate";
  hypothesis = none;
  status = active;
  since_version = "1.0";
}

abbrev config : Mode → SyncConfig
config mode = record {
  api_url = some "https://registry";
  token = some "tok_1";
  file_path = "registry.json";
  mode = mode;
  repo = none;
}

abbrev world : Reply (ℕ × ℕ × ℕ) → World
world answer = record {
  contents = json (arr (item (entry_json sent) nil));
  registry = reply ("fp_1", []);
  apply_plan = λ plan fp. elim answer [
    | reply (a, m, r) ↦ reply (record { added = a; modified = m; removed = r })
    | api_error status ↦ api_error status
    | Reply.crash ↦ Reply.crash
  ];
  can_write = true;
  directory = "acme";
  now = "now";
  wording = λ repo a m r. repo;
}

abbrev outcome : SyncResult → ℕ × Output
outcome r = (r.code, r.output)

sync_tests :
    (outcome (run_sync (config apply) (world (reply (1, 0, 0))))
      ≡ (0, applied (record { added = 1; modified = 0; removed = 0 })))
    × (outcome (run_sync (config apply) (world (api_error 409))) ≡ (1, api_failed 409 true))
    × (outcome (run_sync (record (config apply) { token = some "" }) (world (api_error 409)))
        ≡ (1, no_token))
    × (outcome (run_sync (config diff) (record (world (api_error 409)) { contents = no_file }))
        ≡ (1, file_invalid (unreadable ∷ [])))
unfolding run_sync load_registry_file load_values parse_entry entry_json map_get map_set
    compute_diff by_event is_empty_diff
sync_tests = (refl, refl, refl, refl)

run_sync-IsDue_example :
    All
      (IsDue (config apply) (world (reply (1, 0, 0))))
      (run_sync (config apply) (world (reply (1, 0, 0)))).requests
run_sync-IsDue_example = run_sync-IsDue (config apply) (world (reply (1, 0, 0)))

-- Two entries, out of their order by event.
abbrev opened : RegistryEntry
opened = record sent { event = "opened" }

abbrev is_before : String → String → Bool
is_before s t = (s == "opened") && (t == "sent")

abbrev full_world : World
full_world = record (world (api_error 409)) { registry = reply ("fp_1", sent ∷ opened ∷ []) }

written_sorted :
    write_registry_file is_before (sent ∷ opened ∷ [])
    ≡ arr (item (entry_json opened) (item (entry_json sent) nil))
unfolding write_registry_file sort_by_event insert_sorted
written_sorted = refl

entries_parse :
    (parse_entry (entry_json sent) ≡ some sent) × (parse_entry (entry_json opened) ≡ some opened)
unfolding parse_entry entry_json map_get
entries_parse = (refl, refl)

entries_valid : All IsEntry (sent ∷ opened ∷ [])
entries_valid = (
  parse_entry-IsEntry (entry_json sent) sent entries_parse.0,
  (parse_entry-IsEntry (entry_json opened) opened entries_parse.1, tt),
)

entries-Distinct : Distinct (sent ∷ opened ∷ [])
unfolding by_event
entries-Distinct = (refl, (refl, tt))

run_sync-pulled_example :
    (run_sync (record (config diff) { mode = pull }) full_world ≡ record {
      code = exit_in_sync;
      output = pulled 2;
      requests = write_file (sent ∷ opened ∷ []) ∷ [];
    })
    × (run_sync
          (record (config diff) { mode = apply })
          (after_pull is_before full_world "fp_1" (sent ∷ opened ∷ []))
        ≡ ends exit_in_sync in_sync)
run_sync-pulled_example =
    run_sync-pulled is_before full_world "fp_1" (sent ∷ opened ∷ []) (config diff) apply refl refl
      refl refl entries_valid entries-Distinct (λ m. cc)
