-- ===== src/Registry/Store/Settings/Reading.antt =====
-- packages/registry-service/src/store.ts: what is read after a setting was written, by any tenant.
use toqar.Common.{
  first, ℕ, String, Bool, true, false, not, Option, none, some, List, [], ◌∷◌, ◌++◌, refl, ◌≡◌,
  ◌==◌, if◌then◌else◌, arith, eq_iff,
}
use toqar.Json.{Value}
use toqar.Registry.Inputs.{Grant, parse_grant, parse_residency, parse_flag, parse_retention}
use toqar.Registry.Table.{Rows, select, insert, update, newest_first, reversed}
use toqar.Registry.Store.{GrantRow, TenantRow, Db, committed, audit}
use toqar.Registry.Store.Settings.{
  any_row, Autonomy, get_autonomy, grant_autonomy, get_ingest_settings, set_residency,
  set_redaction_optout, set_retention_days,
}

newest_first-append :
    {A : Type 0} (as' : List A) (a : A) → newest_first (as' ++ a ∷ []) ≡ a ∷ newest_first as'
newest_first-append as' a = onto as' []
  where
    onto : (bs out : List _) → reversed (bs ++ a ∷ []) out ≡ a ∷ reversed bs out
    onto [] out = refl
    onto (b ∷ bs) out = onto bs (b ∷ out)

select-insert :
    (t u : String) (r : GrantRow) (rows : Rows GrantRow)
    → select u any_row (insert t r rows)
      ≡ (if t == u then select u any_row rows ++ r ∷ [] else select u any_row rows)
unfolding select insert
select-insert t u r [] = ground arith
select-insert t u r ((v, q) ∷ rows) = ground (arith, select-insert t u r rows)

-- The dial with one more grant.
abbrev pub turned : GrantRow → Autonomy → Autonomy
turned r a = record { level = r.level; history = r ∷ a.history }

-- After a grant the tenant's level is the granted one, whether it raises or lowers the dial, and its
-- history starts with the grant; every other tenant's dial is what it was.
pub get_autonomy-grant_autonomy :
    (show : ℕ → String) (t u : String) (value : Value) (a : String) (g : Grant) (db : Db)
    → parse_grant value ≡ some g
    → get_autonomy u (committed (grant_autonomy show t value a) db) ≡ (
        if t == u
        then turned (record { level = g.level; granted_by = g.granted_by }) (get_autonomy u db)
        else get_autonomy u db)
unfolding get_autonomy grant_autonomy audit
get_autonomy-grant_autonomy show t u value a g db h =
    let r : GrantRow = record { level = g.level; granted_by = g.granted_by } in
    ground
      (arith, select-insert t u r db.grants, newest_first-append (select u any_row db.grants) r)

abbrev changed_by : (TenantRow → TenantRow) → Option TenantRow → Option TenantRow
changed_by f none = none
changed_by f (some r) = some (f r)

first-update :
    (t u : String) (f : TenantRow → TenantRow) (rows : Rows TenantRow)
    → first (select u any_row (update t any_row f rows)) ≡ (
        if t == u
        then changed_by f (first (select u any_row rows))
        else first (select u any_row rows))
unfolding select update
first-update t u f [] = ground arith
first-update t u f ((v, r) ∷ rows) =
    ground (arith, first-update t u f rows, eq_iff v u, eq_iff v t, eq_iff t u)

abbrev is_there : Option TenantRow → Bool
is_there none = false
is_there (some r) = true

-- A tenant that exists.
abbrev pub exists : String → Db → Bool
exists t db = is_there (first (select t any_row db.tenants))

-- The settings of a tenant after the three setters were called, one after the other, for a tenant that
-- exists: that tenant has all three new values (redaction is on where the opt-out is off), and every
-- other tenant has the settings that it had.
pub get_ingest_settings-set :
    (show : ℕ → String) (t u a : String) (v w x : Value) (place : String) (optout : Bool) (days : ℕ)
    (db : Db)
    → parse_residency v ≡ some place
    → parse_flag "redaction_optout" w ≡ some optout
    → parse_retention x ≡ some days
    → exists t db ≡ true
    → get_ingest_settings u (
        committed
          (set_retention_days show t x a)
          (committed (set_redaction_optout t w a) (committed (set_residency t v a) db)))
      ≡ (if t == u
          then record { retention_days = days; redact = not optout; residency = place }
          else get_ingest_settings u db)
unfolding get_ingest_settings set_retention_days set_redaction_optout set_residency audit
get_ingest_settings-set show t u a v w x place optout days db h₁ h₂ h₃ there = ground (
  arith,
  eq_iff t u,
  first-update t u (λ r. record r { retention_days = days })
      (update t any_row (λ r. record r { redaction_optout = optout })
        (update t any_row (λ r. record r { residency = place }) db.tenants)),
  first-update t u (λ r. record r { redaction_optout = optout })
      (update t any_row (λ r. record r { residency = place }) db.tenants),
  first-update t u (λ r. record r { residency = place }) db.tenants,
)
