-- ===== src/Registry/Store/SeamMaps/Shredding.antt =====
-- packages/registry-service/src/store.ts: `cryptoShredTenant`: what is unreadable after it, and how
-- later seam maps are stored.
use toqar.Common.{first, String, Bool, false, Option, none, some, ◌≡◌, refl, ap, ◌∙◌, sym, ◌==◌}
use toqar.Json.{Value, prop}
use toqar.Registry.SeamMap.{SeamMap, seam_map_json}
use toqar.Registry.Crypto.{Platform}
use toqar.Registry.Table.{select, view}
use toqar.Registry.Table.Views.{select-upsert, kept, view-upsert}
use toqar.Registry.Store.{Db, KeyRow, ok, committed, bind-ok, ok-result, audit}
use toqar.Registry.Store.SeamMaps.{
  any_row, Draws, sealed_text, tenant_dek, put_seam_map, clear_value, get_seam_map,
  crypto_shred_tenant, stored_map,
}
use toqar.Registry.Store.SeamMaps.Keys.{tenant_dek-row}
use toqar.Registry.Store.SeamMaps.Reading.{
  stored_value, value_of, put_seam_map-Stored, read_row-value,
}

abbrev pub shredded : String → String → Db → Db
shredded t a db = committed (crypto_shred_tenant t a) db

shredded-keys :
    (t a : String) (db : Db)
    → first (select t any_row (shredded t a db).keys) ≡ some (record { wrapped_dek = none })
unfolding crypto_shred_tenant audit
shredded-keys t a db =
    select-upsert t any_row (record { wrapped_dek = none }) (λ r. record r { wrapped_dek = none })
      db.keys refl (λ r h. h)
    ∙ ap some (destroyed _)
  where
    destroyed :
        (o : Option KeyRow)
        → kept (record { wrapped_dek = none }) (λ (r : KeyRow). record r { wrapped_dek = none }) o
          ≡ record { wrapped_dek = none }
    destroyed none = refl
    destroyed (some r) = refl

found_after :
    (t a repo : String) (v : Value) (db : Db)
    → stored_value t repo db ≡ some v
    → value_of (first (select t (λ r. r.repo == repo) (shredded t a db).contexts)) ≡ some v
unfolding crypto_shred_tenant audit stored_value
found_after t a repo v db h = h

keys_apart :
    (t a u : String) (db : Db) → (t == u) ≡ false → view u (shredded t a db).keys ≡ view u db.keys
unfolding crypto_shred_tenant audit
keys_apart t a u db apart =
    view-upsert u t any_row (record { wrapped_dek = none }) (λ r. record r { wrapped_dek = none })
      db.keys
    ∙ rw apart

module _ (p : Platform) (is_datetime : String → Bool) where
  open p use {Buffer}

  tenant_dek-shredded :
      (kek : Option Buffer) (t a : String) (d : Draws p) (db : Db)
      → tenant_dek p kek t d (shredded t a db) ≡ ok none (shredded t a db)
  unfolding tenant_dek
  tenant_dek-shredded none t a d db = refl
  tenant_dek-shredded (some kek) t a d db =
      tenant_dek-row p kek t d (shredded t a db) _ (shredded-keys t a db)

  stored_value-shredded :
      (t a repo : String) (db : Db)
      → (stored_value t repo (shredded t a db) ≡ stored_value t repo db)
        × ((shredded t a db).contexts ≡ db.contexts)
  unfolding crypto_shred_tenant audit stored_value
  stored_value-shredded t a repo db = (refl, refl)

  -- After a crypto-shred an encrypted seam map of the tenant reads as absent, whatever the
  -- deployment's key; the stored seam maps are not touched, and no other tenant's key is.
  pub get_seam_map-crypto_shred_tenant :
      (kek : Option Buffer) (t a repo u : String) (d : Draws p) (v : Value) (s : String) (db : Db)
      → stored_value t repo db ≡ some v
      → sealed_text (prop "__enc" v) ≡ some s
      → (t == u) ≡ false
      → (get_seam_map p is_datetime kek t repo d (shredded t a db) ≡ ok none (shredded t a db))
        × ((shredded t a db).contexts ≡ db.contexts)
        × (view u (shredded t a db).keys ≡ view u db.keys)
  unfolding get_seam_map
  get_seam_map-crypto_shred_tenant kek t a repo u d v s db found enc apart = (
    read_row-value p is_datetime kek t repo d _ v (shredded t a db)
          (found_after t a repo v db found)
        ∙ bind-ok (clear_value p kek t d v (sealed_text (prop "__enc" v))) _ (shredded t a db) none
            (shredded t a db)
            (ap (λ o. clear_value p kek t d v o (shredded t a db)) enc
              ∙ bind-ok (tenant_dek p kek t d) _ (shredded t a db) none (shredded t a db)
                  (tenant_dek-shredded kek t a d db)),
    (stored_value-shredded t a repo db).1,
    keys_apart t a u db apart,
  )

  -- A seam map that is put after a crypto-shred is stored in the clear, also where the deployment has
  -- a key to encrypt with.
  pub put_seam_map-crypto_shred_tenant :
      (kek : Option Buffer) (t a b : String) (value : Value) (d : Draws p) (m : SeamMap)
      (db db' : Db)
      → put_seam_map p is_datetime kek t value b d (shredded t a db) ≡ ok m db'
      → stored_value t m.repo db' ≡ some (seam_map_json m)
  put_seam_map-crypto_shred_tenant kek t a b value d m db db' h =
      let s = put_seam_map-Stored p is_datetime kek t value b d m (shredded t a db) db' h in
      let gone : none ≡ s.dek = ok-result (sym (tenant_dek-shredded kek t a d db) ∙ s.keyed) in
      s.found ∙ ap (λ o. some (stored_map p o d m)) (sym gone)
