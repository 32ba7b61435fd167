-- ===== src/Cli/Sync.antt =====
-- packages/cli/src/sync.ts: `runSync`. The file, the backend's answers and the clock are arguments;
-- the requests that a run makes are its effects, and messages are data.
pub mod Requests
pub mod Pulled
mod Tests
use toqar.Common.{
  ℕ, String, Bool, true, false, Option, none, some, List, [], ◌∷◌, eqb, ◌==◌, if◌then◌else◌, length,
}
use toqar.Registry.Schema.{RegistryEntry, TrackingPlan}
use toqar.Cli.Diff.{compute_diff, is_empty_diff}
use toqar.Cli.File.{Problem, Contents, Loaded, loaded, rejected, load_registry_file}

pub data Mode : Type 0 where
  diff apply pull : Mode

-- What a call of the backend gave; `api_error` carries the status.
pub data Reply (A : Type 0) : Type 0 where
  reply : A → Reply A
  api_error : ℕ → Reply A
  crash : Reply A

pub record SyncConfig : Type 0 where
  pub api_url : Option String
  pub token : Option String
  pub file_path : String
  pub mode : Mode
  pub repo : Option String

pub record Counts : Type 0 where
  pub added : ℕ
  pub modified : ℕ
  pub removed : ℕ

pub record World : Type 0 where
  pub contents : Contents
  pub registry : Reply (String × List RegistryEntry)
  pub apply_plan : TrackingPlan → String → Reply Counts
  pub can_write : Bool
  pub directory : String
  pub now : String
  pub wording : String → ℕ → ℕ → ℕ → String

pub data Request : Type 0 where
  write_file : List RegistryEntry → Request
  post_plan : TrackingPlan → String → Request

pub data Output : Type 0 where
  no_url no_token in_sync failed : Output
  pulled : ℕ → Output
  shown : TrackingPlan → Output
  applied : Counts → Output
  file_invalid : List Problem → Output
  -- The status, and whether the hint to run again is added.
  api_failed : ℕ → Bool → Output

pub record SyncResult : Type 0 where
  pub code : ℕ
  pub output : Output
  pub requests : List Request

abbrev pub exit_in_sync : ℕ
exit_in_sync = 0

abbrev pub exit_error : ℕ
exit_error = 1

abbrev pub exit_diff : ℕ
exit_diff = 2

-- An absent or an empty text.
abbrev pub is_missing : Option String → Bool
is_missing none = true
is_missing (some s) = s == ""

abbrev pub or_default : String → Option String → String
or_default d none = d
or_default d (some s) = s

abbrev pub ends : ℕ → Output → SyncResult
ends code output = record { code = code; output = output; requests = [] }

abbrev pub api_ends : ℕ → List Request → SyncResult
api_ends status requests = record {
  code = exit_error;
  output = api_failed status (eqb status 409);
  requests = requests;
}

abbrev pub pull_ends : Bool → List RegistryEntry → SyncResult
pull_ends true es = record {
  code = exit_in_sync;
  output = pulled (length es);
  requests = write_file es ∷ [];
}
pull_ends false es = record { code = exit_error; output = failed; requests = write_file es ∷ [] }

abbrev pub run_pull : Bool → Reply (String × List RegistryEntry) → SyncResult
run_pull can_write (reply (fingerprint, es)) = pull_ends can_write es
run_pull can_write (api_error status) = api_ends status []
run_pull can_write crash = ends exit_error failed

abbrev pub apply_ends : TrackingPlan → String → Reply Counts → SyncResult
apply_ends plan fingerprint (reply counts) = record {
  code = exit_in_sync;
  output = applied counts;
  requests = post_plan plan fingerprint ∷ [];
}
apply_ends plan fingerprint (api_error status) = api_ends status (post_plan plan fingerprint ∷ [])
apply_ends plan fingerprint crash = record {
  code = exit_error;
  output = failed;
  requests = post_plan plan fingerprint ∷ [];
}

module _ (cfg : SyncConfig) (w : World) where
  abbrev pub plan_of : List RegistryEntry → List RegistryEntry → TrackingPlan
  plan_of local remote =
      compute_diff w.wording local remote (or_default w.directory cfg.repo) cfg.file_path w.now

  -- In the modes `diff` and `apply`.
  abbrev pub finish_plan : Mode → TrackingPlan → String → SyncResult
  finish_plan diff plan fingerprint = ends exit_diff (shown plan)
  finish_plan m plan fingerprint = apply_ends plan fingerprint (w.apply_plan plan fingerprint)

  abbrev pub run_plan : TrackingPlan → String → SyncResult
  run_plan plan fingerprint =
      if is_empty_diff plan
      then ends exit_in_sync in_sync
      else finish_plan cfg.mode plan fingerprint

  abbrev pub run_fetched : List RegistryEntry → Reply (String × List RegistryEntry) → SyncResult
  run_fetched local (reply (fingerprint, remote)) = run_plan (plan_of local remote) fingerprint
  run_fetched local (api_error status) = api_ends status []
  run_fetched local crash = ends exit_error failed

  abbrev pub run_loaded : Loaded → SyncResult
  run_loaded (rejected problems) = ends exit_error (file_invalid problems)
  run_loaded (loaded local) = run_fetched local w.registry

  abbrev pub run_mode : Mode → SyncResult
  run_mode pull = run_pull w.can_write w.registry
  run_mode m = run_loaded (load_registry_file w.contents)

  unfoldable pub run_sync : SyncResult
  run_sync =
      if is_missing cfg.api_url
      then ends exit_error no_url
      else if is_missing cfg.token
      then ends exit_error no_token
      else run_mode cfg.mode
