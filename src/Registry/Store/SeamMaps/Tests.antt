-- ===== src/Registry/Store/SeamMaps/Tests.antt =====
-- Seam maps at concrete inputs, over a platform whose cipher is the identity.
use toqar.Common.{◌≡◌, refl, String, true, Bool, Option, none, some, [], ◌∷◌, map_get}
use toqar.Common.Options.{all_some}
use toqar.Json.{Value, prop, obj, field, str, end}
use toqar.Registry.Table.{select, insert, upsert, view}
use toqar.Registry.SeamMap.{SeamMap, seam_map_json, seam_json, parse_seam_map, parse_seam}
use toqar.Registry.Crypto.{Platform, is_encrypted, wrap_dek, encrypt_payload}
use toqar.Registry.Store.{Db, Result, ok, err, empty_db, audit}
use toqar.Registry.Store.SeamMaps.{
  Draws, sealed_text, tenant_dek, put_seam_map, get_seam_map, crypto_shred_tenant,
}
use toqar.Registry.Store.SeamMaps.Reading.{stored_value, read_audited, get_seam_map-put_seam_map}
use toqar.Registry.Store.SeamMaps.Shredding.{
  shredded, get_seam_map-crypto_shred_tenant, put_seam_map-crypto_shred_tenant,
}

abbrev seams : SeamMap
seams = record {
  repo = "acme/app";
  frameworks = "express" ∷ [];
  seams = record { kind = "llm_call"; location = "src/a.ts:1"; note = none } ∷ [];
  task_taxonomy = "lead_outreach" ∷ [];
  agent_version = "0.3";
  produced_at = "now";
}

identity_open :
    (k : String) (iv : Unit {0}) (b : String) → ◌≡◌ {A = Option String} (some b) (some b)
identity_open k iv b = refl

identity_text : (s : String) → s ≡ s
identity_text s = refl

abbrev platform : Platform
platform = record {
  Buffer = String;
  Iv = Unit {0};
  of_text = λ s. s;
  to_text = λ b. b;
  seal = λ k iv b. b;
  open_sealed = λ k s. some s;
  stringify = λ v. "{}";
  parse_json = λ s. some (seam_map_json seams);
  to_text-of_text = identity_text;
  open-seal = identity_open;
}

abbrev draws : Draws platform
draws = record { dek = "dek"; wrap_iv = tt; payload_iv = tt }

abbrev any_date : String → Bool
any_date s = true

abbrev state_after : {A : Type 0} → Result A → Db
state_after (ok r d) = d
state_after (err e) = empty_db

abbrev put_in : Db → Db
put_in db =
    state_after
      (put_seam_map platform any_date (some "kek") "t1" (seam_map_json seams) "ada" draws db)

put_done :
    put_seam_map platform any_date (some "kek") "t1" (seam_map_json seams) "ada" draws empty_db
    ≡ ok seams (put_in empty_db)
unfolding put_seam_map parse_seam_map parse_seam seam_json seam_map_json map_get all_some tenant_dek
    select insert upsert wrap_dek audit
put_done = refl

get_seam_map-put_seam_map_example :
    get_seam_map platform any_date (some "kek") "t1" "acme/app" draws (put_in empty_db)
    ≡ ok (some seams) (read_audited "t1" "acme/app" (put_in empty_db))
get_seam_map-put_seam_map_example =
    get_seam_map-put_seam_map platform any_date (some "kek") "t1" (seam_map_json seams) "ada" draws
      draws seams empty_db (put_in empty_db) refl put_done

-- What is stored for the map above.
abbrev sealed : Value
sealed = obj (field "__enc" (str (encrypt_payload platform "dek" tt "{}")) end)

sealed_stored : stored_value "t1" "acme/app" (put_in empty_db) ≡ some sealed
unfolding put_seam_map parse_seam_map parse_seam seam_json seam_map_json map_get all_some tenant_dek
    select insert upsert wrap_dek audit stored_value encrypt_payload
sealed_stored = refl

sealed_found : sealed_text (prop "__enc" sealed) ≡ some "enc:v1:{}"
unfolding encrypt_payload is_encrypted map_get
sealed_found = refl

get_seam_map-crypto_shred_tenant_example :
    (get_seam_map platform any_date
        (some "kek")
        "t1"
        "acme/app"
        draws
        (shredded "t1" "ada" (put_in empty_db))
      ≡ ok none (shredded "t1" "ada" (put_in empty_db)))
    × ((shredded "t1" "ada" (put_in empty_db)).contexts ≡ (put_in empty_db).contexts)
    × (view "t2" (shredded "t1" "ada" (put_in empty_db)).keys ≡ view "t2" (put_in empty_db).keys)
get_seam_map-crypto_shred_tenant_example =
    get_seam_map-crypto_shred_tenant platform any_date (some "kek") "t1" "ada" "acme/app" "t2" draws
      sealed "enc:v1:{}" (put_in empty_db) sealed_stored sealed_found refl

put_again :
    put_seam_map platform any_date
      (some "kek")
      "t1"
      (seam_map_json seams)
      "ada"
      draws
      (shredded "t1" "ada" empty_db)
    ≡ ok seams (put_in (shredded "t1" "ada" empty_db))
unfolding put_seam_map parse_seam_map parse_seam seam_json seam_map_json map_get all_some tenant_dek
    select insert upsert wrap_dek audit crypto_shred_tenant
put_again = refl

put_seam_map-crypto_shred_tenant_example :
    stored_value "t1" "acme/app" (put_in (shredded "t1" "ada" empty_db))
    ≡ some (seam_map_json seams)
put_seam_map-crypto_shred_tenant_example =
    put_seam_map-crypto_shred_tenant platform any_date (some "kek") "t1" "ada" "ada"
      (seam_map_json seams) draws seams empty_db (put_in (shredded "t1" "ada" empty_db)) put_again
