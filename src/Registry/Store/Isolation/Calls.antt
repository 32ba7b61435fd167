-- ===== src/Registry/Store/Isolation/Calls.antt =====
-- packages/registry-service/src/store.ts: tenants that call the store in turn do not see each other.
use mathlib.Core.Path.{subst}
use toqar.Common.{
  List, map, String, inl, inr, [], ◌∷◌, ◌≡◌, refl, sym, ap, ◌∙◌, ◌==◌, eq_iff, Bool-cases,
}
use toqar.Registry.Table.{Rows}
use toqar.Registry.Table.Local.{keep}
use toqar.Registry.Store.{Db, Result, ok, err, Tx, committed}
use toqar.Registry.Store.Calls.{
  token_list, Answer, blind, blind_answer, number, settings, Backend, Reply, replying, Call, serve,
  answer_of, answers_to, after_all, issuing, listing_tokens, revoking, listing_entries,
  getting_entry, putting_entry, fingerprinting, applying, putting_seam_map, getting_seam_map,
  shredding, recording_run, updating_run, listing_runs, publishing, listing_findings,
  getting_finding, delivering, listing_rejections, getting_autonomy, autonomy, granting, creating,
  transitioning, concluding, listing_experiments, getting_experiment, reaching, getting_onboarding,
  getting_billing, setting_billing, invoicing, listing_invoices, getting_optin, setting_optin,
  getting_retention, getting_settings, setting_residency, setting_redaction, setting_retention,
  getting_policy, setting_policy, listing_audit,
}
use toqar.Registry.Store.Isolation.{only, restricted, IsScoped, pure-IsScoped, bind-IsScoped}
use toqar.Registry.Store.Isolation.Entries.{
  get_entry_via-IsScoped, put_entry-IsScoped, list_entries_via-IsScoped, fingerprint_via-IsScoped,
  apply_plan-IsScoped,
}
use toqar.Registry.Store.Isolation.Tenants.{
  issue_token-IsScoped, list_tokens-IsScoped, revoke_token-IsScoped, get_autonomy-IsScoped,
  grant_autonomy-IsScoped, get_ingest_settings-IsScoped, get_retention_days-IsScoped,
  set_residency-IsScoped, set_redaction_optout-IsScoped, set_retention_days-IsScoped,
}
use toqar.Registry.Store.Isolation.Contexts.{
  crypto_shred_tenant-IsScoped, put_seam_map-IsScoped, get_seam_map-IsScoped,
}
use toqar.Registry.Store.Isolation.Runs.{
  record_instrument_run-IsScoped, update_run_outcome-IsScoped, list_instrument_runs-IsScoped,
}
use toqar.Registry.Store.Isolation.Findings.{
  publish_finding-IsScoped, list_findings-IsScoped, get_finding-IsScoped, record_delivery-IsScoped,
  list_finding_rejections-IsScoped,
}
use toqar.Registry.Store.Isolation.Experiments.{
  create_experiment-IsScoped, update_experiment-IsScoped, write_verdict-IsScoped,
  list_experiments-IsScoped, get_experiment-IsScoped,
}
use toqar.Registry.Store.Isolation.Accounts.{
  record_milestone-IsScoped, record_invoice-IsScoped, get_onboarding-IsScoped, get_billing-IsScoped,
  set_billing-IsScoped, list_invoices-IsScoped, get_benchmark_optin-IsScoped,
  set_benchmark_optin-IsScoped, get_rollout_policy-IsScoped, set_rollout_policy-IsScoped,
}
use toqar.Registry.Store.Isolation.Identities.{blinded, list_audit-IsScoped}

-- A reply made of what a scoped method gives.
replying-IsScoped :
    {A : Type 0} (t : String) (f : A → Reply) (m : Tx A) → IsScoped t m → IsScoped t (replying f m)
replying-IsScoped t f m h = bind-IsScoped t m _ h λ a. pure-IsScoped t (f a)

-- The same, seen without identities.
answering :
    {A : Type 0} (t : String) (f : A → Reply) (m : Tx A)
    → IsScoped t m
    → IsScoped t (blinded (replying f m))
answering t f m h = replying-IsScoped t blind _ (replying-IsScoped t f m h)

module _ (backend : Backend) where
  open backend use {
    platform, services, hash, show, in_unit, claims, is_tag, iso, elapsed, kek, stores,
  }

  serve-IsScoped : (t : String) (c : Call backend) → IsScoped t (blinded (serve backend t c))
  unfolding serve
  serve-IsScoped t (issuing v a u) = answering t _ _ (issue_token-IsScoped t hash v a u)
  serve-IsScoped t listing_tokens = answering t token_list _ (list_tokens-IsScoped t)
  serve-IsScoped t (revoking i a) = answering t _ _ (revoke_token-IsScoped t i a)
  serve-IsScoped t listing_entries = answering t _ _ (list_entries_via-IsScoped t services)
  serve-IsScoped t (getting_entry e) = answering t _ _ (get_entry_via-IsScoped t e)
  serve-IsScoped t (putting_entry v a) = answering t _ _ (put_entry-IsScoped t v a)
  serve-IsScoped t fingerprinting = answering t _ _ (fingerprint_via-IsScoped t services)
  serve-IsScoped t (applying v f a) = answering t _ _ (apply_plan-IsScoped t services v f a)
  serve-IsScoped t (putting_seam_map v a d) =
      answering t _ _ (put_seam_map-IsScoped t platform services.is_datetime kek v a d)
  serve-IsScoped t (getting_seam_map r d) =
      answering t _ _ (get_seam_map-IsScoped t platform services.is_datetime kek r d)
  serve-IsScoped t (shredding a) = answering t _ _ (crypto_shred_tenant-IsScoped t a)
  serve-IsScoped t (recording_run v a u) = answering t _ _ (record_instrument_run-IsScoped t v a u)
  serve-IsScoped t (updating_run i v a) = answering t _ _ (update_run_outcome-IsScoped t i v a)
  serve-IsScoped t listing_runs = answering t _ _ (list_instrument_runs-IsScoped t)
  serve-IsScoped t (publishing v a u) =
      answering t _ _ (publish_finding-IsScoped t claims is_tag stores v a u)
  serve-IsScoped t (listing_findings n) = answering t _ _ (list_findings-IsScoped t n)
  serve-IsScoped t (getting_finding i) = answering t _ _ (get_finding-IsScoped t i)
  serve-IsScoped t (delivering i v) = answering t _ _ (record_delivery-IsScoped t i v)
  serve-IsScoped t listing_rejections = answering t _ _ (list_finding_rejections-IsScoped t)
  serve-IsScoped t getting_autonomy = answering t autonomy _ (get_autonomy-IsScoped t)
  serve-IsScoped t (granting v a) = answering t _ _ (grant_autonomy-IsScoped t show v a)
  serve-IsScoped t (creating v a u) = answering t _ _ (create_experiment-IsScoped t v a u)
  serve-IsScoped t (transitioning i v a) = answering t _ _ (update_experiment-IsScoped t i v a)
  serve-IsScoped t (concluding i v a) = answering t _ _ (write_verdict-IsScoped t i v a)
  serve-IsScoped t listing_experiments = answering t _ _ (list_experiments-IsScoped t)
  serve-IsScoped t (getting_experiment i) = answering t _ _ (get_experiment-IsScoped t i)
  serve-IsScoped t (reaching v) =
      answering t _ _ (record_milestone-IsScoped t services.is_datetime v)
  serve-IsScoped t getting_onboarding = answering t _ _ (get_onboarding-IsScoped t iso elapsed)
  serve-IsScoped t getting_billing = answering t _ _ (get_billing-IsScoped t)
  serve-IsScoped t (setting_billing v) = answering t _ _ (set_billing-IsScoped t v)
  serve-IsScoped t (invoicing v) =
      answering t _ _ (record_invoice-IsScoped t services.is_datetime v)
  serve-IsScoped t listing_invoices = answering t _ _ (list_invoices-IsScoped t)
  serve-IsScoped t getting_optin = answering t _ _ (get_benchmark_optin-IsScoped t)
  serve-IsScoped t (setting_optin v a) = answering t _ _ (set_benchmark_optin-IsScoped t v a)
  serve-IsScoped t getting_retention = answering t number _ (get_retention_days-IsScoped t)
  serve-IsScoped t getting_settings = answering t settings _ (get_ingest_settings-IsScoped t)
  serve-IsScoped t (setting_residency v a) = answering t _ _ (set_residency-IsScoped t v a)
  serve-IsScoped t (setting_redaction v a) = answering t _ _ (set_redaction_optout-IsScoped t v a)
  serve-IsScoped t (setting_retention v a) =
      answering t _ _ (set_retention_days-IsScoped t show v a)
  serve-IsScoped t getting_policy = answering t _ _ (get_rollout_policy-IsScoped t)
  serve-IsScoped t (setting_policy v a) =
      answering t _ _ (set_rollout_policy-IsScoped t in_unit v a)
  serve-IsScoped t (listing_audit n) = list_audit-IsScoped backend.identity t n

  abbrev state_of : Result Reply → Db → Db
  state_of r db = elim r [ ok a db' ↦ db' | err e ↦ db ]

  state_of-restricted :
      (t : String) (db : Db) (r : Result Reply)
      → state_of (restricted t r) (only t db) ≡ only t (state_of r db)
  state_of-restricted t db (ok a db') = refl
  state_of-restricted t db (err e) = refl

  committed-only :
      (t : String) (m : Tx Reply)
      → IsScoped t m
      → (db : Db) → committed m (only t db) ≡ only t (committed m db)
  committed-only t m h db =
      ap (λ r. state_of r (only t db)) (h.alone db) ∙ state_of-restricted t db (m db)

  answer_of-restricted :
      (t : String) (r : Result Reply) → answer_of backend (restricted t r) ≡ answer_of backend r
  answer_of-restricted t (ok a db) = refl
  answer_of-restricted t (err e) = refl

  -- Blinding changes neither the state nor an error.
  abbrev blind_result : Result Reply → Result Reply
  blind_result r = elim r [ ok a db ↦ ok (blind a) db | err e ↦ err e ]

  state_of-blind : (r : Result Reply) (db : Db) → state_of (blind_result r) db ≡ state_of r db
  state_of-blind (ok a db') db = refl
  state_of-blind (err e) db = refl

  answer_of-blind :
      (r : Result Reply)
      → answer_of backend (blind_result r) ≡ blind_answer backend (answer_of backend r)
  answer_of-blind (ok a db) = refl
  answer_of-blind (err e) = refl

  serve-IsScoped_at :
      (t u : String) (c : Call backend) → u ≡ t → IsScoped t (blinded (serve backend u c))
  serve-IsScoped_at t u c e =
      subst (λ v. IsScoped v (blinded (serve backend u c))) e (serve-IsScoped u c)

  committed-serve :
      (t u : String) (c : Call backend) (db : Db)
      → u ≡ t
      → committed (serve backend u c) (only t db) ≡ only t (committed (serve backend u c) db)
  committed-serve t u c db e =
      sym (state_of-blind (serve backend u c (only t db)) (only t db))
      ∙ committed-only t (blinded (serve backend u c)) (serve-IsScoped_at t u c e) db
      ∙ ap (only t) (state_of-blind (serve backend u c db) db)

  answer_of-only :
      (t u : String) (c : Call backend) (db : Db)
      → u ≡ t
      → blind_answer backend (answer_of backend (serve backend u c (only t db)))
        ≡ blind_answer backend (answer_of backend (serve backend u c db))
  answer_of-only t u c db e =
      sym (answer_of-blind (serve backend u c (only t db)))
      ∙ ap (answer_of backend) ((serve-IsScoped_at t u c e).alone db)
      ∙ answer_of-restricted t (blind_result (serve backend u c db))
      ∙ answer_of-blind (serve backend u c db)

  -- What a tenant is told, with the identities of audit rows put to 0.
  abbrev pub told : List (Answer backend) → List (Answer backend)
  told answers = map (blind_answer backend) answers

  -- Tenants are isolated, but for the identities of audit rows. Whatever calls of the store the tenants
  -- make, in whatever order, a tenant gets the answers, errors included, that it would get if it made
  -- its own calls alone to a store that holds its own rows alone, once the identities that `listAudit`
  -- returns are left aside, since they come from one sequence for all tenants; and its rows in the end
  -- are those that it would leave there.
  pub answers_to-only :
      (t : String) (calls : Rows (Call backend)) (db : Db)
      → (told (answers_to backend t calls db)
          ≡ told (answers_to backend t (keep t calls) (only t db)))
        × (only t (after_all backend calls db) ≡ after_all backend (keep t calls) (only t db))
  unfolding answers_to after_all keep
  answers_to-only t [] db = (refl, refl)
  answers_to-only t ((u, c) ∷ calls) db =
      let later = answers_to-only t calls (committed (serve backend u c) db) in
      elim (Bool-cases (u == t)) [
        | inl here ↦
            let same = (eq_iff u t).0 here in
            let state = committed-serve t u c db same in
            rw here (
              rw here (
                  rw (answer_of-only t u c db same) (
                    rw state (
                      ap
                        (λ rest.
                          blind_answer backend (answer_of backend (serve backend u c db)) ∷ rest)
                        later.0))),
              later.1 ∙ ap (after_all backend (keep t calls)) (sym state),
            )
        | inr there ↦
            let state : only t (committed (serve backend u c) db) ≡ only t db =
              ap (only t) (sym (state_of-blind (serve backend u c db) db))
              ∙ (serve-IsScoped u c).apart t there db in
            rw there (
              later.0 ∙ ap (λ d. told (answers_to backend t (keep t calls) d)) state,
              later.1 ∙ ap (after_all backend (keep t calls)) state,
            )
      ]
