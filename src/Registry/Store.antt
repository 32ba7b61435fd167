-- ===== src/Registry/Store.antt =====
-- packages/registry-service/src/store.ts: the tables of `RegistryStore`, its errors, and what every
-- method runs in: one transaction, which an error rolls back as a whole.
-- Times are left out: rows stand in the order in which they were written.
pub mod Entries
pub mod Tokens
pub mod SeamMaps
pub mod Settings
pub mod Runs
pub mod Findings
pub mod Experiments
pub mod Accounts
pub mod Calls
pub mod Isolation
mod Tests
use mathlib.Core.Path.{◌≡◌, refl, ap}
use toqar.Common.{ℕ, String, Bool, Option, none, some, List, [], ◌∷◌}
use toqar.Json.{Value}
use toqar.Registry.Requests.{Delivery, Account, Invoice, RolloutPolicy}
use toqar.Registry.Table.{Rows, insert}

pub data Operation : Type 0 where
  seed put add modify remove seam_map instrument_run finding autonomy token experiment benchmark
        retention :
      Operation

pub record AuditRow : Type 0 where
  pub actor : String
  pub operation : Operation
  pub event : String
  pub before : Value
  pub after : Value

pub record EntryRow : Type 0 where
  pub event : String
  pub entry : Value

pub record TokenRow : Type 0 where
  pub token_id : String
  pub token_hash : String
  pub prefix : String
  pub scope : String
  pub revoked : Bool

pub record TenantRow : Type 0 where
  pub name : String
  pub retention_days : ℕ
  pub redaction_optout : Bool
  pub residency : String

pub record ContextRow : Type 0 where
  pub repo : String
  pub seam_map : Value
  pub agent_version : String

-- A `wrapped_dek` of `none` is a key that was destroyed.
pub record KeyRow : Type 0 where
  pub wrapped_dek : Option String

pub record RunRow : Type 0 where
  pub run_id : String
  pub repo : String
  pub pr_url : Option String
  pub outcome : String
  pub tokens_in : ℕ
  pub tokens_out : ℕ
  pub cost_usd : Value
  pub model : Option String
  pub agent_version : String

pub record GrantRow : Type 0 where
  pub level : ℕ
  pub granted_by : String

pub record ExperimentRow : Type 0 where
  pub experiment_id : String
  pub experiment : Value
  pub status : String
  pub variant_pr_url : Option String

pub record VerdictRow : Type 0 where
  pub experiment_id : String
  pub verdict : Value

pub record FindingRow : Type 0 where
  pub finding_id : String
  pub finding : Value

pub record DeliveryRow : Type 0 where
  pub finding_id : String
  pub delivery : Delivery

pub record RejectionRow : Type 0 where
  pub reason : String
  pub draft : Value

-- A column of the timeline for each milestone that was reached.
abbrev pub Timeline : Type 0
Timeline = List (String × String)

pub record Db : Type 0 where
  pub tenants : Rows TenantRow
  pub tokens : Rows TokenRow
  pub entries : Rows EntryRow
  pub audit_log : Rows AuditRow
  pub contexts : Rows ContextRow
  pub keys : Rows KeyRow
  pub runs : Rows RunRow
  pub grants : Rows GrantRow
  pub experiments : Rows ExperimentRow
  pub verdicts : Rows VerdictRow
  pub policies : Rows RolloutPolicy
  pub findings : Rows FindingRow
  pub deliveries : Rows DeliveryRow
  pub rejections : Rows RejectionRow
  pub accounts : Rows Account
  pub invoices : Rows Invoice
  pub optins : Rows Bool
  pub timelines : Rows Timeline

-- The tables after the migrations, before any call.
abbrev pub empty_db : Db
empty_db = record {
  tenants = [];
  tokens = [];
  entries = [];
  audit_log = [];
  contexts = [];
  keys = [];
  runs = [];
  grants = [];
  experiments = [];
  verdicts = [];
  policies = [];
  findings = [];
  deliveries = [];
  rejections = [];
  accounts = [];
  invoices = [];
  optins = [];
  timelines = [];
}

pub data Conflict : Type 0 where
  stale_fingerprint : (planned current : String) → Conflict
  added_exists modified_missing removed_missing : String → Conflict

pub data Error : Type 0 where
  validation : Error
  conflict : Conflict → Error
  -- Any other exception.
  failure : Error

pub data Result (A : Type 0) : Type 0 where
  ok : A → Db → Result A
  err : Error → Result A

abbrev pub Tx : Type 0 → Type 0
Tx A = Db → Result A

infixl 5 ◌>>=◌ ◌>>◌
abbrev pub ◌>>=◌ : {A B : Type 0} → Tx A → (A → Tx B) → Tx B
◌>>=◌ m f db = elim (m db) [ ok a db' ↦ f a db' | err e ↦ err e ]

abbrev pub ◌>>◌ : {B : Type 0} → Tx (Unit {0}) → Tx B → Tx B
m >> k = m >>= λ _. k

abbrev pub pure : {A : Type 0} → A → Tx A
pure a db = ok a db

abbrev pub throw : {A : Type 0} → Error → Tx A
throw e db = err e

abbrev pub read : {A : Type 0} → (Db → A) → Tx A
read f db = ok (f db) db

abbrev pub write : (Db → Db) → Tx (Unit {0})
write f db = ok tt (f db)

-- What a schema's `safeParse` gave; a failure is a `ValidationError`.
abbrev pub parsed : {A : Type 0} → Option A → Tx A
parsed none db = err validation
parsed (some a) db = ok a db

pub bind-eq-ok :
    {A B : Type 0} (m : Tx A) (f : A → Tx B) (db : Db) {b : B} {db' : Db}
    → (m >>= f) db ≡ ok b db'
    → (a : A) × (mid : Db) × (m db ≡ ok a mid) × (f a mid ≡ ok b db')
bind-eq-ok {A} {B} m f db {b} {db'} e = go (m db) refl e
  where
    go :
        (r : Result A)
        → m db ≡ r
        → elim r [ ok a mid ↦ f a mid | err x ↦ err x ] ≡ ok b db'
        → (a : A) × (mid : Db) × (m db ≡ ok a mid) × (f a mid ≡ ok b db')
    go (ok a mid) h k = (a, mid, h, k)
    go (err x) h k = cc

pub ok-result : {A : Type 0} {a b : A} {db db' : Db} → ok a db ≡ ok b db' → a ≡ b
ok-result e = cc

pub ok-state : {A : Type 0} {a b : A} {db db' : Db} → ok a db ≡ ok b db' → db ≡ db'
ok-state e = cc

pub bind-ok :
    {A B : Type 0} (m : Tx A) (f : A → Tx B) (db : Db) (a : A) (mid : Db)
    → m db ≡ ok a mid
    → (m >>= f) db ≡ f a mid
bind-ok m f db a mid h = ap (λ r. elim r [ ok x d ↦ f x d | err e ↦ err e ]) h

pub bind-err :
    {A B : Type 0} (m : Tx A) (f : A → Tx B) (db : Db) (e : Error)
    → m db ≡ err e
    → (m >>= f) db ≡ err e
bind-err m f db e h = ap (λ r. elim r [ ok x d ↦ f x d | err x ↦ err x ]) h

-- `tenantTransaction`: the state after a call, the one before it if the call threw.
abbrev pub committed : {A : Type 0} → Tx A → Db → Db
committed m db = elim (m db) [ ok a db' ↦ db' | err e ↦ db ]

-- The private method `audit`.
unfoldable pub audit : String → String → Operation → String → Value → Value → Tx (Unit {0})
audit tenant actor operation event before after = write (λ db. record db {
  audit_log =
      insert tenant
        (record {
          actor = actor;
          operation = operation;
          event = event;
          before = before;
          after = after;
        })
        db.audit_log;
})
