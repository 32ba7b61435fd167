-- ===== src/Registry/Store/Tokens/Seeding.antt =====
-- packages/registry-service/src/store.ts: `createTenant`: what a new tenant starts with.
use mathlib.Core.Path.{subst}
use toqar.Common.{
  append-nil, append_assoc, eq_refl, Bool, ◌++◌, suc, String, false, Option, none, some, List, [],
  ◌∷◌, ◌≡◌, refl, ap, ◌∙◌, sym, ◌==◌, if◌then◌else◌, arith, eq_iff, length, All,
}
use Prim.Native.String.{◌++◌ as ◌<>◌}
use toqar.Json.{Value, null}
use toqar.Registry.Schema.{RegistryEntry, entry_json}
use toqar.Registry.Schema.RoundTrip.{IsEntry}
use toqar.Registry.Taxonomy.{core_event, default_taxonomy}
use toqar.Registry.Table.{Rows, view, insert}
use toqar.Registry.Table.Views.{view-insert}
use toqar.Registry.Store.{
  TenantRow, TokenRow, Db, EntryRow, AuditRow, Operation, ok, bind-ok, audit,
}
use toqar.Registry.Store.Entries.{each, write_entry}
use toqar.Registry.Store.Entries.Items.{changed}
use toqar.Registry.Store.Entries.Effects.{
  Registered, registered, set_at, Effect, Effect-refl, Effect-trans, changed-Effect,
}
use toqar.Registry.Store.Entries.Plans.{IsClean, set_at-IsClean}
use toqar.Registry.Store.Tokens.{
  Uuids, NewToken, new_token, seed_entry, create_tenant, write_tenant, write_token, live_token,
  resolve_token, default_tenant,
}
use toqar.Registry.Store.Tokens.Resolution.{live_token-insert}

abbrev pub with_entries : List RegistryEntry → Registered → Registered
with_entries [] reg = reg
with_entries (e ∷ es) reg = with_entries es (set_at e.event (entry_json e) reg)

abbrev pub seeded : String → List RegistryEntry → Db → Db
seeded t [] db = db
seeded t (e ∷ es) db = seeded t es (changed t "system" Operation.seed e.event null e db)

module _ (t : String) where
  seed_entry-changed :
      (e : RegistryEntry) (db : Db)
      → seed_entry t e db ≡ ok tt (changed t "system" Operation.seed e.event null e db)
  unfolding changed write_entry audit
  seed_entry-changed e db = refl

  each-seed_entry :
      (es : List RegistryEntry) (db : Db) → each (seed_entry t) es db ≡ ok tt (seeded t es db)
  unfolding each
  each-seed_entry [] db = refl
  each-seed_entry (e ∷ es) db =
      bind-ok (seed_entry t e) (λ _. each (seed_entry t) es) db tt _ (seed_entry-changed e db)
      ∙ each-seed_entry es (changed t "system" Operation.seed e.event null e db)

seeded-Effect :
    (t : String) (es : List RegistryEntry) (db : Db)
    → Effect t (length es) (with_entries es) db (seeded t es db)
seeded-Effect t [] db = Effect-refl t db
seeded-Effect t (e ∷ es) db =
    let mid = changed t "system" Operation.seed e.event null e db in
    Effect-trans t 1 (length es) (suc (length es)) (set_at e.event (entry_json e)) (with_entries es)
      db mid (seeded t es mid) (omega arith)
      (changed-Effect t "system" Operation.seed e.event null e db) (seeded-Effect t es mid)

-- The audit records of the seeding: one for each entry, in their order.
unfoldable pub seed_records : List RegistryEntry → List AuditRow
seed_records [] = []
seed_records (e ∷ es) =
    record {
      actor = "system";
      operation = Operation.seed;
      event = e.event;
      before = null;
      after = entry_json e;
    }
    ∷ seed_records es

view-seeded :
    (t : String) (es : List RegistryEntry) (db : Db)
    → view t (seeded t es db).audit_log ≡ view t db.audit_log ++ seed_records es
unfolding seed_records changed
view-seeded t [] db = sym (append-nil (view t db.audit_log))
view-seeded t (e ∷ es) db =
    let row : AuditRow = record {
      actor = "system";
      operation = Operation.seed;
      event = e.event;
      before = null;
      after = entry_json e;
    } in
    let one : view t (insert t row db.audit_log) ≡ view t db.audit_log ++ row ∷ [] =
      view-insert t t row db.audit_log
      ∙ ap (λ (b : Bool). if b then view t db.audit_log ++ row ∷ [] else view t db.audit_log)
          (eq_refl t) in
    view-seeded t es (changed t "system" Operation.seed e.event null e db)
    ∙ ap (λ (rows : List AuditRow). rows ++ seed_records es) one
    ∙ append_assoc (view t db.audit_log) (row ∷ []) (seed_records es)

with_entries-IsClean :
    (es : List RegistryEntry) (reg : Registered)
    → All IsEntry es
    → IsClean reg
    → IsClean (with_entries es reg)
with_entries-IsClean [] reg v c = c
with_entries-IsClean (e ∷ es) reg (v, vs) c =
    with_entries-IsClean es (set_at e.event (entry_json e) reg) vs (set_at-IsClean e reg v c)

core_event-IsEntry :
    (e d o : String)
    → (e == "") ≡ false
    → (d == "") ≡ false
    → (o == "") ≡ false
    → IsEntry (core_event e d o)
core_event-IsEntry e d o h k l = record {
  event = λ q. ground (arith, eq_iff e "");
  description = λ q. ground (arith, eq_iff d "");
  journey = λ q. cc;
  owner_metric = λ q. ground (arith, eq_iff o "");
  hypothesis = λ q. cc;
  since_version = λ q. cc;
}

default_taxonomy-IsEntry : All IsEntry default_taxonomy
unfolding default_taxonomy
default_taxonomy-IsEntry = (
  core_event-IsEntry _ _ _ refl refl refl,
  (
    core_event-IsEntry _ _ _ refl refl refl,
    (
      core_event-IsEntry _ _ _ refl refl refl,
      (
        core_event-IsEntry _ _ _ refl refl refl,
        (
          core_event-IsEntry _ _ _ refl refl refl,
          (
            core_event-IsEntry _ _ _ refl refl refl,
            (
              core_event-IsEntry _ _ _ refl refl refl,
              (
                core_event-IsEntry _ _ _ refl refl refl,
                (
                  core_event-IsEntry _ _ _ refl refl refl,
                  (core_event-IsEntry _ _ _ refl refl refl, tt),
                ),
              ),
            ),
          ),
        ),
      ),
    ),
  ),
)

-- The state before the entries are seeded.
abbrev with_tenant : (String → String) → String → String → NewToken → Db → Db
with_tenant hash t name made db = record db {
  tenants = insert t (default_tenant name) db.tenants;
  tokens =
      insert t
        (record {
          token_id = made.token_id;
          token_hash = hash made.secret;
          prefix = made.prefix;
          scope = "api:full";
          revoked = false;
        })
        db.tokens;
}

resolve_token-with_tenant :
    (hash : String → String) (t name : String) (made : NewToken) (es : Rows EntryRow)
    (log : Rows AuditRow) (db : Db) (presented : String)
    → live_token (hash made.secret) db.tokens ≡ none
    → resolve_token hash presented
        (record (with_tenant hash t name made db) { entries = es; audit_log = log })
      ≡ (if hash made.secret == hash presented
          then some (t, "api:full")
          else resolve_token hash presented db)
unfolding resolve_token
resolve_token-with_tenant hash t name made es log db presented free = ground (
  arith,
  live_token-insert t
      (record {
        token_id = made.token_id;
        token_hash = hash made.secret;
        prefix = made.prefix;
        scope = "api:full";
        revoked = false;
      })
      db.tokens (hash presented),
)

absurd_some : {v : Value} → ◌≡◌ {A = Option Value} none (some v) → ⊥
absurd_some h = cc

-- A tenant that was created: its row, last in the table, has the name, a year's retention, redaction on
-- and the default region; its registry holds the default entries, each of which passes the schema
-- and has its audit record, its token resolves to it with full scope, every other text resolves as
-- before, and no other tenant's entries or audit records change.
pub record IsCreated (hash : String → String) (t name secret : String) (db db' : Db) : Type 0 where
  pub entries : registered t db' ≡ with_entries default_taxonomy (registered t db)
  pub clean : IsClean (registered t db')
  pub tenants :
      db'.tenants
      ≡ db.tenants
        ++ (
          t,
          record { name = name; retention_days = 365; redaction_optout = false; residency = "us" },
        )
          ∷ []
  pub audited : view t db'.audit_log ≡ view t db.audit_log ++ seed_records default_taxonomy
  pub resolves :
      (presented : String)
      → resolve_token hash presented db' ≡ (
          if hash secret == hash presented
          then some (t, "api:full")
          else resolve_token hash presented db)
  pub apart :
      (u : String)
      → (t == u) ≡ false
      → (registered u db' ≡ registered u db) × (view u db'.audit_log ≡ view u db.audit_log)

-- The key constraints of the tables: no row has the new identifiers or the new hash.
pub record IsNew (t token_id hash : String) (db : Db) : Type 0 where
  pub tenant : All (λ (row : String × TenantRow). (row.0 == t) ≡ false) db.tenants
  pub token :
      All
        (λ (row : String × TokenRow).
          ((row.1.token_id == token_id) ≡ false) × ((row.1.token_hash == hash) ≡ false))
        db.tokens

live_token-none :
    (token_id hash : String) (rows : Rows TokenRow)
    → All
        (λ (row : String × TokenRow).
          ((row.1.token_id == token_id) ≡ false) × ((row.1.token_hash == hash) ≡ false))
        rows
    → live_token hash rows ≡ none
unfolding live_token
live_token-none token_id hash [] h = refl
live_token-none token_id hash ((u, row) ∷ rows) ((i, h), hs) =
    rw h (live_token-none token_id hash rows hs)

-- `createTenant` creates its tenant where the new identifiers and the new hash are new, as the key
-- constraints ask, and no entry stands under the new id: it succeeds, the tenant's row has the given
-- name, a year's retention, redaction on and the default region, its registry holds exactly the default
-- taxonomy, each entry valid and audited, in order, and the token that is returned resolves to the
-- tenant with full scope, while every other text resolves as before and other tenants' entries and
-- audit records are unchanged.
pub create_tenant-IsCreated :
    (hash : String → String) (uuid name : String) (uuids : Uuids) (db : Db)
    → IsNew ("t_" <> uuid) (new_token uuids).token_id (hash (new_token uuids).secret) db
    → ((k : String) → registered ("t_" <> uuid) db k ≡ none)
    → (db' : Db) × (create_tenant hash uuid name uuids db
        ≡ ok ("t_" <> uuid, (new_token uuids).secret) db')
      × IsCreated hash ("t_" <> uuid) name (new_token uuids).secret db db'
unfolding create_tenant write_tenant write_token default_tenant insert
create_tenant-IsCreated hash uuid name uuids db fresh empty =
    let t = "t_" <> uuid in
    let free =
      live_token-none (new_token uuids).token_id (hash (new_token uuids).secret) db.tokens
        fresh.token in
    let db₁ = with_tenant hash t name (new_token uuids) db in
    let effect = seeded-Effect t default_taxonomy db₁ in
    (
      seeded t default_taxonomy db₁,
      bind-ok (each (seed_entry t) default_taxonomy) _ db₁ tt _
          (each-seed_entry t default_taxonomy db₁),
      record {
        entries = effect.entries;
        clean = subst IsClean (sym effect.entries) (
            with_entries-IsClean default_taxonomy (registered t db) default_taxonomy-IsEntry
              (λ k v h. absurd (absurd_some (sym (empty k) ∙ h))));
        tenants = ap (λ (d : Db). d.tenants) effect.rest;
        audited = view-seeded t default_taxonomy db₁;
        resolves = λ presented.
            ap (λ (d : Db). resolve_token hash presented d) effect.rest
            ∙ resolve_token-with_tenant hash t name (new_token uuids) _ _ db presented free;
        apart = effect.apart;
      },
    )
