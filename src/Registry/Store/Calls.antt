-- ===== src/Registry/Store/Calls.antt =====
-- packages/registry-service/src/store.ts: the calls that tenants make of the store, by the methods
-- that run inside `scoped`. Left out are those that the code runs as the owner: createTenant,
-- resolveToken, findTenantByToken and optedInTenants.
use toqar.Common.{ℕ, String, Bool, Option, some, List, [], ◌∷◌, ◌==◌, if◌then◌else◌, map}
use toqar.Json.{Value}
use toqar.Registry.Schema.{RegistryEntry}
use toqar.Registry.SeamMap.{SeamMap}
use toqar.Registry.Crypto.{Platform}
use toqar.Registry.Requests.{Account, Invoice, RolloutPolicy}
use toqar.Registry.Table.{Rows}
use toqar.Registry.Store.{
  TokenRow, RunRow, ExperimentRow, FindingRow, DeliveryRow, RejectionRow, Db, Error, Result, ok,
  err, Tx, ◌>>=◌, pure, read, committed,
}
use toqar.Registry.Store.Entries.{
  Services, ApplyResult, list_entries_via, get_entry_via, put_entry, fingerprint_via, apply_plan,
}
use toqar.Registry.Store.Tokens.{NewToken, Uuids, issue_token, list_tokens, revoke_token}
use toqar.Registry.Store.SeamMaps.{Draws, crypto_shred_tenant, put_seam_map, get_seam_map}
use toqar.Registry.Store.Settings.{
  Autonomy, IngestSettings, get_autonomy, grant_autonomy, get_ingest_settings, get_retention_days,
  set_residency, set_redaction_optout, set_retention_days,
}
use toqar.Registry.Store.Runs.{
  MergeRate, record_instrument_run, update_run_outcome, list_instrument_runs,
}
use toqar.Registry.Store.Findings.{
  PublishResult, publish_finding, list_findings, get_finding, record_delivery,
  list_finding_rejections,
}
use toqar.Registry.Store.Experiments.{
  create_experiment, update_experiment, write_verdict, list_experiments, get_experiment,
}
use toqar.Registry.Store.Accounts.{
  record_milestone, record_invoice, Onboarding, get_onboarding, get_billing, set_billing,
  list_invoices, get_benchmark_optin, set_benchmark_optin, get_rollout_policy, set_rollout_policy,
  AuditRecord, list_audit,
}

-- What the store is built over.
pub record Backend : Type 1 where
  pub platform : Platform
  pub services : Services
  pub hash : String → String
  pub show : ℕ → String
  pub in_unit : String → Bool
  pub claims : String → List (ℕ × String)
  pub is_tag : String → Bool
  pub iso : String → String
  pub elapsed : (from to : String) → Value
  pub kek : Option platform.Buffer
  pub identity : ℕ → ℕ
  pub stores : Value → Bool

pub data Reply : Type 0 where
  done : Reply
  flag : Bool → Reply
  number : ℕ → Reply
  id : String → Reply
  new_token : NewToken → Reply
  token_list : List TokenRow → Reply
  entry : Option RegistryEntry → Reply
  entry_list : List RegistryEntry → Reply
  applied : ApplyResult → Reply
  seam_map : Option SeamMap → Reply
  run_list : List RunRow × MergeRate → Reply
  publication : PublishResult → Reply
  finding_list : List FindingRow → Reply
  finding : Option (FindingRow × List DeliveryRow) → Reply
  rejection_list : List RejectionRow → Reply
  autonomy : Autonomy → Reply
  settings : IngestSettings → Reply
  experiment_list : List ExperimentRow → Reply
  experiment : Option (ExperimentRow × Option Value) → Reply
  onboarding : Onboarding → Reply
  billing : Account → Reply
  invoice_list : List Invoice → Reply
  policy : Option RolloutPolicy → Reply
  audit_list : List AuditRecord → Reply

-- A reply with the identities of audit rows put to 0.
abbrev pub unnumbered : AuditRecord → AuditRecord
unnumbered r = record { id = 0; row = r.row }

abbrev pub blind : Reply → Reply
blind (audit_list rows) = audit_list (map unnumbered rows)
blind r = r

abbrev pub replying : {A : Type 0} → (A → Reply) → Tx A → Tx Reply
replying f m = m >>= λ a. pure (f a)

abbrev pub nothing : Unit {0} → Reply
nothing x = done

module _ (backend : Backend) where
  pub data Call : Type 0 where
    issuing : Value → String → Uuids → Call
    listing_tokens : Call
    revoking : (token_id actor : String) → Call
    listing_entries : Call
    getting_entry : String → Call
    putting_entry : Value → String → Call
    fingerprinting : Call
    applying : Value → (fingerprint actor : String) → Call
    putting_seam_map : Value → String → Draws backend.platform → Call
    getting_seam_map : String → Draws backend.platform → Call
    shredding : String → Call
    recording_run : Value → (actor uuid : String) → Call
    updating_run : String → Value → String → Call
    listing_runs : Call
    publishing : Option Value → (actor uuid : String) → Call
    listing_findings : ℕ → Call
    getting_finding : String → Call
    delivering : String → Value → Call
    listing_rejections : Call
    getting_autonomy : Call
    granting : Value → String → Call
    creating : Value → (actor uuid : String) → Call
    transitioning : String → Value → String → Call
    concluding : String → Value → String → Call
    listing_experiments : Call
    getting_experiment : String → Call
    reaching : Value → Call
    getting_onboarding : Call
    getting_billing : Call
    setting_billing : Value → Call
    invoicing : Value → Call
    listing_invoices : Call
    getting_optin : Call
    setting_optin : Value → String → Call
    getting_retention : Call
    getting_settings : Call
    setting_residency : Value → String → Call
    setting_redaction : Value → String → Call
    setting_retention : Value → String → Call
    getting_policy : Call
    setting_policy : Value → String → Call
    listing_audit : ℕ → Call

  abbrev dates : String → Bool
  dates = backend.services.is_datetime

  unfoldable pub serve : String → Call → Tx Reply
  serve t (issuing v a u) = replying new_token (issue_token backend.hash t v a u)
  serve t listing_tokens = replying token_list (read (list_tokens t))
  serve t (revoking i a) = replying flag (revoke_token t i a)
  serve t listing_entries = replying entry_list (list_entries_via backend.services t)
  serve t (getting_entry e) = replying entry (get_entry_via t e)
  serve t (putting_entry v a) = replying (λ e. entry (some e)) (put_entry t v a)
  serve t fingerprinting = replying id (fingerprint_via backend.services t)
  serve t (applying v f a) = replying applied (apply_plan backend.services t v f a)
  serve t (putting_seam_map v a d) =
      replying (λ m. seam_map (some m)) (put_seam_map backend.platform dates backend.kek t v a d)
  serve t (getting_seam_map r d) =
      replying seam_map (get_seam_map backend.platform dates backend.kek t r d)
  serve t (shredding a) = replying nothing (crypto_shred_tenant t a)
  serve t (recording_run v a u) = replying id (record_instrument_run t v a u)
  serve t (updating_run i v a) = replying flag (update_run_outcome t i v a)
  serve t listing_runs = replying run_list (list_instrument_runs t)
  serve t (publishing v a u) =
      replying publication (publish_finding backend.claims backend.is_tag backend.stores t v a u)
  serve t (listing_findings n) = replying finding_list (list_findings t n)
  serve t (getting_finding i) = replying finding (get_finding t i)
  serve t (delivering i v) = replying flag (record_delivery t i v)
  serve t listing_rejections = replying rejection_list (list_finding_rejections t)
  serve t getting_autonomy = replying autonomy (read (get_autonomy t))
  serve t (granting v a) = replying number (grant_autonomy backend.show t v a)
  serve t (creating v a u) = replying id (create_experiment t v a u)
  serve t (transitioning i v a) = replying flag (update_experiment t i v a)
  serve t (concluding i v a) = replying flag (write_verdict t i v a)
  serve t listing_experiments = replying experiment_list (list_experiments t)
  serve t (getting_experiment i) = replying experiment (get_experiment t i)
  serve t (reaching v) = replying nothing (record_milestone dates t v)
  serve t getting_onboarding = replying onboarding (get_onboarding backend.iso backend.elapsed t)
  serve t getting_billing = replying billing (get_billing t)
  serve t (setting_billing v) = replying nothing (set_billing t v)
  serve t (invoicing v) = replying nothing (record_invoice dates t v)
  serve t listing_invoices = replying invoice_list (list_invoices t)
  serve t getting_optin = replying flag (get_benchmark_optin t)
  serve t (setting_optin v a) = replying nothing (set_benchmark_optin t v a)
  serve t getting_retention = replying number (read (get_retention_days t))
  serve t getting_settings = replying settings (read (get_ingest_settings t))
  serve t (setting_residency v a) = replying nothing (set_residency t v a)
  serve t (setting_redaction v a) = replying nothing (set_redaction_optout t v a)
  serve t (setting_retention v a) = replying nothing (set_retention_days backend.show t v a)
  serve t getting_policy = replying policy (get_rollout_policy t)
  serve t (setting_policy v a) = replying nothing (set_rollout_policy backend.in_unit t v a)
  serve t (listing_audit n) = replying audit_list (list_audit backend.identity t n)

  -- What a caller sees: a reply, or an error.
  pub data Answer : Type 0 where
    replied : Reply → Answer
    refused : Error → Answer

  abbrev pub answer_of : Result Reply → Answer
  answer_of (ok r db) = replied r
  answer_of (err e) = refused e

  abbrev pub blind_answer : Answer → Answer
  blind_answer (replied r) = replied (blind r)
  blind_answer (refused e) = refused e

  -- The calls of all tenants, one after the other: the answers that one of them gets, and the
  -- database at the end.
  unfoldable pub answers_to : String → Rows Call → Db → List Answer
  answers_to t [] db = []
  answers_to t ((u, c) ∷ calls) db =
      let rest = answers_to t calls (committed (serve u c) db) in
      if u == t then answer_of (serve u c db) ∷ rest else rest

  unfoldable pub after_all : Rows Call → Db → Db
  after_all [] db = db
  after_all ((u, c) ∷ calls) db = after_all calls (committed (serve u c) db)
