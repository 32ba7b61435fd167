-- ===== src/Cli/Sync/Requests.antt =====
-- packages/cli/src/sync.ts: what a run asks for, and its exit code.
use toqar.Common.{
  String, Bool, true, false, List, [], ◌≡◌, inl, inr, refl, if◌then◌else◌, arith, Bool-cases, All,
}
use toqar.Registry.Schema.{RegistryEntry, TrackingPlan}
use toqar.Cli.Diff.{is_empty_diff}
use toqar.Cli.File.{Loaded, loaded, rejected, load_registry_file}
use toqar.Cli.Sync.{
  Mode, diff, apply, pull, Reply, reply, api_error, crash, SyncConfig, World, Request, write_file,
  post_plan, is_missing, pull_ends, run_pull, apply_ends, plan_of, finish_plan, run_fetched,
  run_loaded, run_mode, run_sync, exit_in_sync, exit_diff, Counts,
}

module _ (cfg : SyncConfig) (w : World) where
  -- A plan that may be posted: in the mode `apply`, the difference of a valid file and the entries that
  -- the backend returned, not empty, with the fingerprint that came with these entries. A file is
  -- written in the mode `pull` only, with the entries that the backend returned.
  abbrev pub IsDue : Request → Type 0
  IsDue (write_file es) = (cfg.mode ≡ pull) × (fp : String) × (w.registry ≡ reply (fp, es))
  IsDue (post_plan plan fp) =
      (cfg.mode ≡ apply)
      × (local : List RegistryEntry) × (remote : List RegistryEntry) × (load_registry_file
            w.contents
          ≡ loaded local)
      × (w.registry ≡ reply (fp, remote))
      × (plan ≡ plan_of cfg w local remote)
      × (is_empty_diff plan ≡ false)

  pull-IsDue :
      (r : Reply (String × List RegistryEntry))
      → cfg.mode ≡ pull
      → w.registry ≡ r
      → All IsDue (run_pull w.can_write r).requests
  pull-IsDue (reply (fp, es)) m e = written w.can_write
    where
      written : (b : Bool) → All IsDue (pull_ends b es).requests
      written true = ((m, fp, e), tt)
      written false = ((m, fp, e), tt)
  pull-IsDue (api_error status) m e = tt
  pull-IsDue crash m e = tt

  apply-IsDue :
      (plan : TrackingPlan) (fp : String) (r : Reply Counts)
      → IsDue (post_plan plan fp)
      → All IsDue (apply_ends plan fp r).requests
  apply-IsDue plan fp (reply counts) d = (d, tt)
  apply-IsDue plan fp (api_error status) d = (d, tt)
  apply-IsDue plan fp crash d = (d, tt)

  finish-IsDue :
      (m : Mode) (plan : TrackingPlan) (fp : String)
      → (m ≡ apply → IsDue (post_plan plan fp))
      → (m ≡ pull → ⊥)
      → All IsDue (finish_plan cfg w m plan fp).requests
  finish-IsDue diff plan fp d n = tt
  finish-IsDue apply plan fp d n = apply-IsDue plan fp (w.apply_plan plan fp) (d refl)
  finish-IsDue pull plan fp d n = absurd (n refl)

  fetched-IsDue :
      (local : List RegistryEntry) (r : Reply (String × List RegistryEntry))
      → (cfg.mode ≡ pull → ⊥)
      → load_registry_file w.contents ≡ loaded local
      → w.registry ≡ r
      → All IsDue (run_fetched cfg w local r).requests
  fetched-IsDue local (api_error status) n e f = tt
  fetched-IsDue local crash n e f = tt
  fetched-IsDue local (reply (fp, remote)) n e f =
      elim (Bool-cases (is_empty_diff (plan_of cfg w local remote))) [
        | inl empty ↦ rw empty tt
        | inr drift ↦ rw drift (
            finish-IsDue cfg.mode (plan_of cfg w local remote) fp
              (λ m. (m, local, remote, e, f, refl, drift)) n)
      ]

  loaded-IsDue :
      (l : Loaded)
      → (cfg.mode ≡ pull → ⊥)
      → load_registry_file w.contents ≡ l
      → All IsDue (run_loaded cfg w l).requests
  loaded-IsDue (rejected problems) n e = tt
  loaded-IsDue (loaded local) n e = fetched-IsDue local w.registry n e refl

  mode-IsDue : (m : Mode) → cfg.mode ≡ m → All IsDue (run_mode cfg w m).requests
  mode-IsDue pull m = pull-IsDue w.registry m refl
  mode-IsDue diff m = loaded-IsDue (load_registry_file w.contents) (λ k. cc) refl
  mode-IsDue apply m = loaded-IsDue (load_registry_file w.contents) (λ k. cc) refl

-- A run posts a plan only in the mode `apply`, and then the difference, not empty, of a valid registry
-- file and the entries that the backend returned, with the fingerprint that came with them. It writes
-- the file only in the mode `pull`, with the entries that the backend returned.
pub run_sync-IsDue : (cfg : SyncConfig) (w : World) → All (IsDue cfg w) (run_sync cfg w).requests
unfolding run_sync
run_sync-IsDue cfg w = elim (Bool-cases (is_missing cfg.api_url)) [
  | inl no_url ↦ simp no_url tt
  | inr url ↦ simp url (elim (Bool-cases (is_missing cfg.token)) [
    | inl no_token ↦ simp no_token tt
    | inr token ↦ simp token (mode-IsDue cfg w cfg.mode refl)
  ])
]

-- In the mode `diff`, with an address and a token, a valid file and an answer of the backend, the exit
-- code tells whether there is drift, and nothing is asked for beyond the entries.
pub run_sync-diff :
    (cfg : SyncConfig) (w : World) (local remote : List RegistryEntry) (fp : String)
    → is_missing cfg.api_url ≡ false
    → is_missing cfg.token ≡ false
    → cfg.mode ≡ diff
    → load_registry_file w.contents ≡ loaded local
    → w.registry ≡ reply (fp, remote)
    → ((run_sync cfg w).code
        ≡ (if is_empty_diff (plan_of cfg w local remote) then exit_in_sync else exit_diff))
      × ((run_sync cfg w).requests ≡ [])
unfolding run_sync
run_sync-diff cfg w local remote fp url token m e f =
    elim (Bool-cases (is_empty_diff (plan_of cfg w local remote))) [
      | inl empty ↦ (ground arith, ground arith)
      | inr drift ↦ (ground arith, ground arith)
    ]
