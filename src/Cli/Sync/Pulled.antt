-- ===== src/Cli/Sync/Pulled.antt =====
-- packages/cli/src/sync.ts: a pull, and the runs after it.
use mathlib.Core.Path.{subst}
use toqar.Common.{
  String, Bool, true, false, some, List, [], ◌∷◌, ◌≡◌, refl, sym, ◌∙◌, arith, All, length,
}
use toqar.Registry.Schema.{RegistryEntry}
use toqar.Registry.Schema.RoundTrip.{IsEntry}
use toqar.Cli.Diff.{by_event, is_added, is_modified, is_removed, compute_diff, is_empty_diff}
use toqar.Cli.Diff.Lookup.{Distinct, by_event-event, same_entry_refl}
use toqar.Cli.Diff.Settled.{filter-nil}
use toqar.Cli.File.{loaded, json, load_registry_file, write_registry_file}
use toqar.Cli.File.Written.{load_registry_file-write_registry_file}
use toqar.Cli.Sync.{
  Mode, diff, apply, pull, reply, SyncConfig, World, in_sync, pulled, write_file, is_missing, ends,
  run_loaded, run_mode, run_sync, exit_in_sync,
}

module _ (local remote : List RegistryEntry)
    (same : (k : String) → by_event local k ≡ by_event remote k) where
  found_at :
      (k : String) (e : RegistryEntry)
      → by_event local k ≡ some e
      → by_event remote e.event ≡ some e
  found_at k e h =
      subst (λ x. by_event remote x ≡ some e) (sym (by_event-event local k e h)) (sym (same k) ∙ h)

  unadded : (k : String) (e : RegistryEntry) → by_event local k ≡ some e → is_added remote e ≡ false
  unadded k e h = let there = found_at k e h in ground arith

  unmodified :
      (k : String) (e : RegistryEntry) → by_event local k ≡ some e → is_modified remote e ≡ false
  unmodified k e h = let there = found_at k e h in ground (arith, same_entry_refl e)

  unremoved :
      (k : String) (e : RegistryEntry) → by_event remote k ≡ some e → is_removed local e ≡ false
  unremoved k e h =
      let there : by_event local e.event ≡ some e =
        subst (λ x. by_event local x ≡ some e) (sym (by_event-event remote k e h)) (same k ∙ h) in
      ground arith

  agreeing_is_empty :
      (wording : _) (repo path stamp : String)
      → Distinct local
      → Distinct remote
      → is_empty_diff (compute_diff wording local remote repo path stamp) ≡ true
  unfolding is_empty_diff compute_diff
  agreeing_is_empty wording repo path stamp d e =
      rw (filter-nil (is_added remote) local d unadded) (
        rw (filter-nil (is_modified remote) local d unmodified)
          (rw (filter-nil (is_removed local) remote e unremoved) refl))

module _ (before : String → String → Bool) (w : World) (fp : String)
    (remote : List RegistryEntry) where
  -- The world after a pull: the file holds what was written.
  abbrev pub after_pull : World
  after_pull = record w { contents = json (write_registry_file before remote) }

  loaded_in_sync :
      (cfg : SyncConfig) (read : List RegistryEntry)
      → w.registry ≡ reply (fp, remote)
      → Distinct read
      → Distinct remote
      → ((k : String) → by_event read k ≡ by_event remote k)
      → run_loaded cfg after_pull (loaded read) ≡ ends exit_in_sync in_sync
  loaded_in_sync cfg read answered d e same =
      rw answered (rw (agreeing_is_empty read remote same _ _ _ _ d e) refl)

  mode_in_sync :
      (cfg : SyncConfig) (m : Mode) (read : List RegistryEntry)
      → (m ≡ pull → ⊥)
      → load_registry_file after_pull.contents ≡ loaded read
      → run_loaded cfg after_pull (loaded read) ≡ ends exit_in_sync in_sync
      → run_mode cfg after_pull m ≡ ends exit_in_sync in_sync
  mode_in_sync cfg pull read n l h = absurd (n refl)
  mode_in_sync cfg diff read n l h = rw l h
  mode_in_sync cfg apply read n l h = rw l h

  -- A pull of valid entries for distinct events, with an address, a token and a file that can be
  -- written, ends with 0 and asks for nothing but to write them. With the file as it was written and
  -- the registry as it was, a run in another mode then finds no drift: it ends with 0 and asks for
  -- nothing.
  pub run_sync-pulled :
      (cfg : SyncConfig) (m : Mode)
      → is_missing cfg.api_url ≡ false
      → is_missing cfg.token ≡ false
      → w.can_write ≡ true
      → w.registry ≡ reply (fp, remote)
      → All IsEntry remote
      → Distinct remote
      → (m ≡ pull → ⊥)
      → (run_sync (record cfg { mode = pull }) w ≡ record {
        code = exit_in_sync;
        output = pulled (length remote);
        requests = write_file remote ∷ [];
      })
        × (run_sync (record cfg { mode = m }) after_pull ≡ ends exit_in_sync in_sync)
  unfolding run_sync
  run_sync-pulled cfg m url token writes answered valid d n =
      let (read, l, e, same) = load_registry_file-write_registry_file before remote valid d in
      (
        simp (url, token) (rw answered (rw writes refl)),
        simp (url, token)
            (mode_in_sync (record cfg { mode = m }) m read n l
              (loaded_in_sync (record cfg { mode = m }) read answered e d same)),
      )
