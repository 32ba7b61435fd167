-- ===== src/Registry/Store/SeamMaps/Reading.antt =====
-- packages/registry-service/src/store.ts: `getSeamMap` against `putSeamMap` and `cryptoShredTenant`.
use mathlib.Core.Path.{subst}
use mathlib.Core.Option.{some-injective}
use toqar.Common.{
  first, String, Bool, Option, none, some, ◌≡◌, refl, ap, ◌∙◌, sym, ◌==◌, arith, eq_refl,
  Option-cases, inl, inr, map_get,
}
use toqar.Json.{Value, null, obj, field, str, end, prop}
use toqar.Registry.SeamMap.{SeamMap, parse_seam_map, seam_map_json}
use toqar.Registry.SeamMap.RoundTrip.{parse_seam_map-seam_map_json}
use toqar.Registry.Crypto.{Platform, encrypt_payload, decrypt-encrypt}
use toqar.Registry.Table.{Rows, select, upsert}
use toqar.Registry.Table.Views.{select-upsert, kept}
use toqar.Registry.Store.{
  Db, ContextRow, ok, bind-ok, bind-eq-ok, parsed, ok-result, ok-state, committed, audit, Operation,
  ◌>>=◌,
}
use toqar.Registry.Store.SeamMaps.{
  Draws, sealed_text, tenant_dek, stored_map, put_seam_map, clear_value, read_value, read_row,
  get_seam_map,
}
use toqar.Registry.Store.SeamMaps.Keys.{tenant_dek-again}

-- The value that a tenant has for a repository.
abbrev pub value_of : Option ContextRow → Option Value
value_of none = none
value_of (some r) = some r.seam_map

unfoldable pub stored_value : String → String → Db → Option Value
stored_value t repo db = value_of (first (select t (λ r. r.repo == repo) db.contexts))

-- The state after a read was audited.
abbrev pub read_audited : String → String → Db → Db
read_audited t repo db =
    committed
      (audit t "system" Operation.seam_map repo null (obj (field "action" (str "read") end))) db

-- `JSON.parse` gives back the map that `JSON.stringify` wrote.
abbrev pub JsonBack : Platform → SeamMap → Type 0
JsonBack p m = p.parse_json (p.stringify (seam_map_json m)) ≡ some (seam_map_json m)

sealed-none : (m : SeamMap) → sealed_text (prop "__enc" (seam_map_json m)) ≡ none
unfolding seam_map_json map_get
sealed-none m = refl

module _ (p : Platform) where
  open p use {Buffer, stringify, parse_json}

  sealed-some :
      (dek : Buffer) (d : Draws p) (m : SeamMap)
      → sealed_text (prop "__enc" (stored_map p (some dek) d m))
        ≡ some (encrypt_payload p dek d.payload_iv (stringify (seam_map_json m)))
  unfolding map_get
  sealed-some dek d m = rw (decrypt-encrypt p dek d.payload_iv (stringify (seam_map_json m))).0

  -- What was stored is read in the clear, with the key that it was stored under.
  clear_value-stored :
      (kek : Option Buffer) (t : String) (d d' : Draws p) (dek : Option Buffer) (m : SeamMap)
      (db : Db)
      → JsonBack p m
      → tenant_dek p kek t d' db ≡ ok dek db
      → clear_value p kek t d'
          (stored_map p dek d m)
          (sealed_text (prop "__enc" (stored_map p dek d m)))
          db
        ≡ ok (some (seam_map_json m)) db
  clear_value-stored kek t d d' none m db j h = rw (sealed-none m)
  clear_value-stored kek t d d' (some dek) m db j h = rw (sealed-some dek d m) (
      bind-ok (tenant_dek p kek t d') _ db (some dek) db h
      ∙ rw (decrypt-encrypt p dek d.payload_iv (stringify (seam_map_json m))).1 (rw j))

module _ (p : Platform) (is_datetime : String → Bool) where
  open p use {Buffer, Iv}

  -- A put that went through, in its parts.
  pub record Stored (kek : Option Buffer) (t : String) (value : Value) (d : Draws p) (m : SeamMap)
      (db db' : Db) : Type 0 where
    pub dek : Option Buffer
    pub mid : Db
    pub accepted : parse_seam_map is_datetime value ≡ some m
    pub keyed : tenant_dek p kek t d db ≡ ok dek mid
    pub keys : db'.keys ≡ mid.keys
    pub found : stored_value t m.repo db' ≡ some (stored_map p dek d m)

  parsed_map :
      (value : Value) (m : SeamMap) (db mid : Db)
      → parsed (parse_seam_map is_datetime value) db ≡ ok m mid
      → (parse_seam_map is_datetime value ≡ some m) × (db ≡ mid)
  parsed_map value m db mid h = elim (Option-cases (parse_seam_map is_datetime value)) [
    | inl bad ↦ absurd (ground arith)
    | inr (x, good) ↦ (ground arith, ground arith)
  ]

  stored_after :
      (t repo : String) (v : Value) (version : String) (rows : Rows ContextRow)
      → value_of (
          first (
            select t
              (λ r. r.repo == repo)
              (upsert t
                (λ r. r.repo == repo)
                (record { repo = repo; seam_map = v; agent_version = version })
                (λ r. record r { seam_map = v; agent_version = version })
                rows)))
        ≡ some v
  stored_after t repo v version rows =
      ap value_of (
        select-upsert t (λ r. r.repo == repo)
          (record { repo = repo; seam_map = v; agent_version = version })
          (λ r. record r { seam_map = v; agent_version = version }) rows (eq_refl repo) (λ a h. h))
      ∙ kept_value _
    where
      kept_value :
          (o : Option ContextRow)
          → ◌≡◌ {A = Option Value}
              (some
                (kept
                  (record { repo = repo; seam_map = v; agent_version = version })
                  (λ (r : ContextRow). record r { seam_map = v; agent_version = version })
                  o).seam_map)
              (some v)
      kept_value none = refl
      kept_value (some r) = refl

  pub put_seam_map-Stored :
      (kek : Option Buffer) (t : String) (value : Value) (a : String) (d : Draws p) (m : SeamMap)
      (db db' : Db)
      → put_seam_map p is_datetime kek t value a d db ≡ ok m db'
      → Stored kek t value d m db db'
  unfolding put_seam_map audit stored_value
  put_seam_map-Stored kek t value a d m db db' h =
      let (m₀, s₁, e₁, k₁) = bind-eq-ok (parsed (parse_seam_map is_datetime value)) _ db h in
      let (good, same) = parsed_map value m₀ db s₁ e₁ in
      let (dek, mid, e₂, k₂) = bind-eq-ok (tenant_dek p kek t d) _ s₁ k₁ in
      subst (λ x. Stored kek t value d x db db') (ok-result k₂)
        (subst (λ x. Stored kek t value d m₀ db x) (ok-state k₂)
          (record {
            dek = dek;
            mid = mid;
            accepted = good;
            keyed = subst (λ x. tenant_dek p kek t d x ≡ ok dek mid) (sym same) e₂;
            keys = refl;
            found = stored_after t m₀.repo (stored_map p dek d m₀) m₀.agent_version mid.contexts;
          }))

  pub read_row-value :
      (kek : Option Buffer) (t repo : String) (d : Draws p) (o : Option ContextRow) (v : Value)
      (db : Db)
      → value_of o ≡ some v
      → read_row p is_datetime kek t repo d o db
        ≡ (clear_value p kek t d v (sealed_text (prop "__enc" v))
              >>= read_value p is_datetime t repo)
            db
  read_row-value kek t repo d none v db h = cc
  read_row-value kek t repo d (some r) v db h =
      ap
        (λ x.
          (clear_value p kek t d x (sealed_text (prop "__enc" x))
              >>= read_value p is_datetime t repo)
            db)
        (some-injective _ _ h)

  -- A read of what was put, in any later state with the same keys and the same stored value.
  get_seam_map-Stored :
      (kek : Option Buffer) (t : String) (value : Value) (d d' : Draws p) (m : SeamMap)
      (db db' : Db)
      → JsonBack p m
      → Stored kek t value d m db db'
      → get_seam_map p is_datetime kek t m.repo d' db'
        ≡ read_value p is_datetime t m.repo (some (seam_map_json m)) db'
  unfolding get_seam_map stored_value
  get_seam_map-Stored kek t value d d' m db db' j s =
      read_row-value kek t m.repo d' _ (stored_map p s.dek d m) db' s.found
      ∙ bind-ok (clear_value p kek t d' (stored_map p s.dek d m) _)
          (read_value p is_datetime t m.repo) db' (some (seam_map_json m)) db'
          (clear_value-stored p kek t d d' s.dek m db' j
            (tenant_dek-again p kek t d d' s.dek db s.mid db' s.keyed s.keys))

  -- Where `JSON.parse` reads back what `JSON.stringify` wrote of the map:
  -- a seam map that was put is read back, whether it was stored encrypted, under a key that was there
  -- or was made for it, or in the clear; the read writes one audit record and nothing else.
  pub get_seam_map-put_seam_map :
      (kek : Option Buffer) (t : String) (value : Value) (a : String) (d d' : Draws p) (m : SeamMap)
      (db db' : Db)
      → JsonBack p m
      → put_seam_map p is_datetime kek t value a d db ≡ ok m db'
      → get_seam_map p is_datetime kek t m.repo d' db' ≡ ok (some m) (read_audited t m.repo db')
  unfolding audit
  get_seam_map-put_seam_map kek t value a d d' m db db' j h =
      let s = put_seam_map-Stored kek t value a d m db db' h in
      get_seam_map-Stored kek t value d d' m db db' j s
      ∙ rw (parse_seam_map-seam_map_json is_datetime value m s.accepted)
