-- ===== src/Registry/Store/SeamMaps/Keys.antt =====
-- packages/registry-service/src/store.ts: `tenantDek` gives the same key at every later call.
use toqar.Common.{
  first, String, Option, none, some, [], ◌∷◌, ◌≡◌, ap, ◌∙◌, sym, arith, eq_refl, Option-cases, inl,
  inr,
}
use toqar.Registry.Crypto.{Platform, wrap_dek, unwrap_dek}
use toqar.Registry.Table.{Rows, select, insert}
use toqar.Registry.Store.{Db, KeyRow, ok, ok-result, ok-state}
use toqar.Registry.Store.SeamMaps.{any_row, Draws, tenant_dek, key_of_row, unwrapped, opened}

select-insert :
    (t : String) (r : KeyRow) (rows : Rows KeyRow)
    → first (select t any_row rows) ≡ none
    → first (select t any_row (insert t r rows)) ≡ some r
unfolding select insert
select-insert t r [] h = ground (arith, eq_refl t)
select-insert t r ((u, q) ∷ rows) h = ground (arith, select-insert t r rows)

module _ (p : Platform) where
  open p use {Buffer, open-seal}

  pub tenant_dek-row :
      (kek : Buffer) (t : String) (d : Draws p) (db : Db) (o : Option KeyRow)
      → first (select t any_row db.keys) ≡ o
      → tenant_dek p (some kek) t d db ≡ key_of_row p kek t d o db
  unfolding tenant_dek
  tenant_dek-row kek t d db o h = ap (λ x. key_of_row p kek t d x db) h

  opened-state :
      (o : Option Buffer) (x : Option Buffer) (db db' mid : Db)
      → opened p o db ≡ ok x mid
      → (opened p o db' ≡ ok x db') × (db ≡ mid)
  opened-state none x db db' mid h = cc
  opened-state (some b) x db db' mid h = (ap (λ y. ok y db') (ok-result h), ok-state h)

  unwrapped-state :
      (kek : Buffer) (w : Option String) (x : Option Buffer) (db db' mid : Db)
      → unwrapped p kek w db ≡ ok x mid
      → (unwrapped p kek w db' ≡ ok x db') × (db ≡ mid)
  unwrapped-state kek none x db db' mid h = (ap (λ y. ok y db') (ok-result h), ok-state h)
  unwrapped-state kek (some w) x db db' mid h = opened-state (unwrap_dek p kek w) x db db' mid h

  open-wrap :
      (kek : Buffer) (d : Draws p) → unwrap_dek p kek (wrap_dek p kek d.wrap_iv d.dek) ≡ some d.dek
  unfolding wrap_dek unwrap_dek
  open-wrap kek d = open-seal kek d.wrap_iv d.dek

  -- A key that one call gave is the key of every later call, until the table of keys changes.
  pub tenant_dek-again :
      (kek : Option Buffer) (t : String) (d d' : Draws p) (o : Option Buffer) (db mid db' : Db)
      → tenant_dek p kek t d db ≡ ok o mid
      → db'.keys ≡ mid.keys
      → tenant_dek p kek t d' db' ≡ ok o db'
  unfolding tenant_dek
  tenant_dek-again none t d d' o db mid db' h k = ap (λ x. ok x db') (ok-result h)
  tenant_dek-again (some kek) t d d' o db mid db' h k =
      elim (Option-cases (first (select t any_row db.keys))) [
        | inl free ↦
            let made = sym (tenant_dek-row kek t d db none free) ∙ h in
            let there =
              ap (λ x. first (select t any_row x))
                (k ∙ sym (ap (λ (x : Db). x.keys) (ok-state made)))
              ∙ select-insert t (record { wrapped_dek = some (wrap_dek p kek d.wrap_iv d.dek) })
                  db.keys free in
            tenant_dek-row kek t d' db' _ there
            ∙ ap (λ x. opened p x db') (open-wrap kek d)
            ∙ ap (λ x. ok x db') (ok-result made)
        | inr (r, found) ↦
            let used = sym (tenant_dek-row kek t d db (some r) found) ∙ h in
            let (again, same) = unwrapped-state kek r.wrapped_dek o db db' mid used in
            tenant_dek-row kek t d' db' (some r) (
              ap (λ x. first (select t any_row x)) (k ∙ sym (ap (λ (x : Db). x.keys) same)) ∙ found)
            ∙ again
      ]
