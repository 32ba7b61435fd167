-- ===== src/Cli/File/Tests.antt =====
-- Registry files at concrete inputs.
use toqar.Common.{◌≡◌, refl, none, List, [], ◌∷◌, map_get, map_set, All}
use toqar.Json.{Value, null, arr, item, nil, as_items}
use toqar.Registry.Schema.{RegistryEntry, active, entry_json, parse_entry}
use toqar.Registry.Schema.RoundTrip.{IsEntry}
use toqar.Cli.Diff.Lookup.{Distinct}
use toqar.Cli.File.{
  loaded, rejected, json, no_json, invalid, duplicate, invalid_json, load_values,
  load_registry_file,
}
use toqar.Cli.File.Accepted.{Reads, load_registry_file-loaded}
use toqar.Common.{some}

abbrev sent : RegistryEntry
sent = record {
  event = "sent";
  description = "a message was sent";
  journey = "lead_outreach";
  owner_metric = "task_success_rate";
  hypothesis = none;
  status = active;
  since_version = "1.0";
}

abbrev opened : RegistryEntry
opened = record sent { event = "opened"; description = "a message was opened" }

abbrev file : Value
file = arr (item (entry_json sent) (item (entry_json opened) nil))

accepted : load_registry_file (json file) ≡ loaded (sent ∷ opened ∷ [])
unfolding load_registry_file load_values parse_entry entry_json map_get map_set
accepted = refl

refused :
    (load_registry_file
        (json (arr (item (entry_json sent) (item null (item (entry_json sent) nil)))))
      ≡ rejected (invalid 1 ∷ duplicate 2 "sent" 0 ∷ []))
    × (load_registry_file no_json ≡ rejected (invalid_json ∷ []))
unfolding load_registry_file load_values parse_entry entry_json map_get map_set
refused = (refl, refl)

load_registry_file-loaded_example :
    (v : Value) × (vs : List Value) × (json file ≡ json v)
    × (as_items v ≡ some vs)
    × Reads vs (sent ∷ opened ∷ [])
    × All IsEntry (sent ∷ opened ∷ [])
    × Distinct (sent ∷ opened ∷ [])
load_registry_file-loaded_example =
    load_registry_file-loaded (json file) (sent ∷ opened ∷ []) accepted
