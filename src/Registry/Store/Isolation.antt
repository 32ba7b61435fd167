-- ===== src/Registry/Store/Isolation.antt =====
-- packages/registry-service/src/store.ts: what it is for a method to be scoped to a tenant, and that
-- the statements, reads and chains of which the methods are made are.
pub mod Tables
pub mod Runs
pub mod Findings
pub mod Experiments
pub mod Accounts
pub mod Entries
pub mod Tenants
pub mod Contexts
pub mod Identities
pub mod Calls
mod Tests
use toqar.Common.{
  ℕ, String, Bool, true, false, Option, none, some, List, [], ◌∷◌, ◌≡◌, refl, sym, ap, ◌∙◌, ◌==◌,
  if◌then◌else◌,
}
use toqar.Json.{Value}
use toqar.Registry.Requests.{Account, Invoice, RolloutPolicy}
use toqar.Registry.Table.{Rows, select, insert}
use toqar.Registry.Table.Local.{keep, IsLocal, select-keep, insert-IsLocal}
use toqar.Registry.Store.{
  TenantRow, TokenRow, EntryRow, AuditRow, ContextRow, KeyRow, RunRow, GrantRow, ExperimentRow,
  VerdictRow, FindingRow, DeliveryRow, RejectionRow, Timeline, Db, Operation, Error, Result, ok,
  err, Tx, ◌>>=◌, ◌>>◌, pure, throw, read, write, parsed, committed, audit,
}

-- The database that holds the rows of one tenant only.
abbrev pub only : String → Db → Db
only t db = record {
  tenants = keep t db.tenants;
  tokens = keep t db.tokens;
  entries = keep t db.entries;
  audit_log = keep t db.audit_log;
  contexts = keep t db.contexts;
  keys = keep t db.keys;
  runs = keep t db.runs;
  grants = keep t db.grants;
  experiments = keep t db.experiments;
  verdicts = keep t db.verdicts;
  policies = keep t db.policies;
  findings = keep t db.findings;
  deliveries = keep t db.deliveries;
  rejections = keep t db.rejections;
  accounts = keep t db.accounts;
  invoices = keep t db.invoices;
  optins = keep t db.optins;
  timelines = keep t db.timelines;
}

-- The same result, over that database.
abbrev pub restricted : {A : Type 0} → String → Result A → Result A
restricted t (ok a db) = ok a (only t db)
restricted t (err e) = err e

-- A method that runs over its tenant's rows alone as it runs over the whole database, and that
-- leaves the rows of every other tenant alone.
pub record IsScoped {A : Type 0} (t : String) (m : Tx A) : Type 0 where
  pub alone : (db : Db) → m (only t db) ≡ restricted t (m db)
  pub apart : (u : String) → (t == u) ≡ false → (db : Db) → only u (committed m db) ≡ only u db

-- A table of the database, as it is read and replaced.
pub record Table (A : Type 0) : Type 0 where
  pub get : Db → Rows A
  pub set : Rows A → Db → Db
  pub get_only : (t : String) (db : Db) → get (only t db) ≡ keep t (get db)
  pub set_only :
      (t : String) (rows : Rows A) (db : Db) → only t (set rows db) ≡ set (keep t rows) (only t db)
  pub set_get : (db : Db) → set (get db) db ≡ db

module _ (t : String) where
  pub pure-IsScoped : {A : Type 0} (a : A) → IsScoped t (pure a)
  pure-IsScoped a = record { alone = λ db. refl; apart = λ u ne db. refl }

  pub throw-IsScoped : (A : Type 0) (e : Error) → IsScoped {A = A} t (throw e)
  throw-IsScoped A e = record { alone = λ db. refl; apart = λ u ne db. refl }

  pub parsed-IsScoped : {A : Type 0} (o : Option A) → IsScoped t (parsed o)
  parsed-IsScoped none = record { alone = λ db. refl; apart = λ u ne db. refl }
  parsed-IsScoped (some a) = record { alone = λ db. refl; apart = λ u ne db. refl }

  pub read-IsScoped :
      {A : Type 0} (f : Db → A) → ((db : Db) → f (only t db) ≡ f db) → IsScoped t (read f)
  read-IsScoped f h = record {
    alone = λ db. ap (λ a. ok a (only t db)) (h db);
    apart = λ u ne db. refl;
  }

  module _ {A B : Type 0} (m : Tx A) (f : A → Tx B) where
    abbrev next : Result A → Result B
    next r = elim r [ ok a db ↦ f a db | err e ↦ err e ]

    next_alone :
        (r : Result A)
        → ((a : A) → IsScoped t (f a))
        → next (restricted t r) ≡ restricted t (next r)
    next_alone (ok a db) k = (k a).alone db
    next_alone (err e) k = refl

    abbrev state_after : {C : Type 0} → Result C → Db → Db
    state_after r db = elim r [ ok c db' ↦ db' | err e ↦ db ]

    kept_apart :
        (u : String) (db mid : Db) (r : Result B)
        → only u (state_after r mid) ≡ only u mid
        → only u mid ≡ only u db
        → only u (state_after r db) ≡ only u db
    kept_apart u db mid (ok b db') h k = h ∙ k
    kept_apart u db mid (err e) h k = refl

    next_apart :
        (u : String)
        → (t == u) ≡ false
        → (db : Db) (r : Result A) → only u (state_after r db) ≡ only u db
        → ((a : A) → IsScoped t (f a))
        → only u (state_after (next r) db) ≡ only u db
    next_apart u ne db (ok a mid) h k = kept_apart u db mid (f a mid) ((k a).apart u ne mid) h
    next_apart u ne db (err e) h k = refl

    pub bind-IsScoped : IsScoped t m → ((a : A) → IsScoped t (f a)) → IsScoped t (m >>= f)
    bind-IsScoped h k = record {
      alone = λ db. ap next (h.alone db) ∙ next_alone (m db) k;
      apart = λ u ne db. next_apart u ne db (m db) (h.apart u ne db) k;
    }

  pub then-IsScoped :
      {B : Type 0} (m : Tx (Unit {0})) (k : Tx B)
      → IsScoped t m
      → IsScoped t k
      → IsScoped t (m >> k)
  then-IsScoped m k h j = bind-IsScoped m (λ x. k) h λ x. j

  module _ {A : Type 0} (table : Table A) where
    open table use {get, set, get_only, set_only, set_get}

    pub write-IsScoped :
        (g : Rows A → Rows A) → IsLocal t g → IsScoped t (write (λ db. set (g (get db)) db))
    write-IsScoped g l = record {
      alone = λ db.
          ap (λ rows. ok tt (set (g rows) (only t db))) (get_only t db)
          ∙ ap (λ rows. ok tt (set rows (only t db))) (sym (l (get db)).0)
          ∙ ap (λ x. ok tt x) (sym (set_only t (g (get db)) db));
      apart = λ u ne db.
          set_only u (g (get db)) db
          ∙ ap (λ rows. set rows (only u db)) ((l (get db)).1 u ne ∙ sym (get_only u db))
          ∙ set_get (only u db);
    }

    pub select-IsScoped :
        {B : Type 0} (p : A → Bool) (f : List A → B)
        → IsScoped t (read (λ db. f (select t p (get db))))
    select-IsScoped p f =
        read-IsScoped (λ db. f (select t p (get db)))
          λ db. ap f (ap (select t p) (get_only t db) ∙ select-keep t p (get db))
