-- ===== src/Registry/Taxonomy.antt =====
-- packages/registry-service/src/taxonomy.ts: the entries that every new tenant starts with.
use toqar.Common.{String, none, List, [], ◌∷◌}
use toqar.Registry.Schema.{RegistryEntry, active}

abbrev pub core_event : String → String → String → RegistryEntry
core_event event description owner_metric = record {
  event = event;
  description = description;
  journey = "toqar_core";
  owner_metric = owner_metric;
  hypothesis = none;
  status = active;
  since_version = "0.1.0";
}

unfoldable pub default_taxonomy : List RegistryEntry
default_taxonomy =
    core_event "task_started" "A task began. Emitted once per task, before the first run."
      "task_success_rate"
    ∷ core_event "task_completed"
        "The task finished with a success claim (verified or self-reported)." "task_success_rate"
    ∷ core_event "task_failed" "The task ended in failure." "task_success_rate"
    ∷ core_event "task_abandoned" "The task was walked away from without an outcome."
        "abandonment_rate"
    ∷ core_event "step_executed" "One step inside a run: LLM call, tool call, retrieval, or other."
        "cost_per_completed_task"
    ∷ core_event "handoff_to_human" "The agent paused and asked a human." "escalation_rate"
    ∷ core_event "human_approved" "A human approved a handoff." "approval_friction"
    ∷ core_event "human_edited" "A human changed the agent's output." "human_edit_distance"
    ∷ core_event "human_overrode" "A human took over or discarded the agent's work entirely."
        "override_rate"
    ∷ core_event "feedback_given" "An explicit satisfaction signal from a person." "complaint_rate"
    ∷ []
