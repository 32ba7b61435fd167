-- ===== src/Registry/Store/SeamMaps.antt =====
-- packages/registry-service/src/store.ts: tenant keys, seam maps and the crypto-shred. What a call
-- draws at random (a key and IVs) is an argument.
pub mod Keys
pub mod Reading
pub mod Shredding
mod Tests
use toqar.Common.{
  first, ℕ, String, Bool, true, false, Option, none, some, List, [], ◌∷◌, ◌==◌, length,
  if◌then◌else◌,
}
use toqar.Json.{Value, null, num, bool, str, obj, field, end, prop, str_items}
use toqar.Registry.SeamMap.{SeamMap, parse_seam_map, seam_map_json}
use toqar.Registry.Crypto.{
  Platform, is_encrypted, wrap_dek, unwrap_dek, encrypt_payload, decrypt_payload,
}
use toqar.Registry.Table.{Rows, select, insert, upsert}
use toqar.Registry.Store.{
  ContextRow, KeyRow, Db, Operation, Error, failure, Tx, ◌>>=◌, ◌>>◌, pure, throw, read, write,
  parsed, audit,
}

abbrev pub any_row : {A : Type 0} → A → Bool
any_row a = true

-- The text of the key `__enc`, where the stored value is an encrypted one.
abbrev pub sealed_text : Option Value → Option String
sealed_text (some (str s)) = if is_encrypted s then some s else none
sealed_text v = none

abbrev pub summary : SeamMap → Value
summary m = obj (
    field "agent_version" (str m.agent_version) (
      field "produced_at" (str m.produced_at)
        (field "seams" (num (length m.seams)) (field "frameworks" (str_items m.frameworks) end))))

unfoldable pub crypto_shred_tenant : String → String → Tx (Unit {0})
crypto_shred_tenant tenant actor = do
  write (λ db. record db {
    keys =
        upsert tenant any_row (record { wrapped_dek = none }) (λ r. record r { wrapped_dek = none })
          db.keys;
  })
  audit tenant actor Operation.retention "crypto_shred" null
      (obj (field "shredded" (bool true) end))

module _ (p : Platform) where
  open p use {Buffer, Iv, stringify, parse_json}

  pub record Draws : Type 0 where
    pub dek : Buffer
    pub wrap_iv : Iv
    pub payload_iv : Iv

  abbrev pub opened : Option Buffer → Tx (Option Buffer)
  opened none = throw failure
  opened (some b) = pure (some b)

  abbrev pub unwrapped : Buffer → Option String → Tx (Option Buffer)
  unwrapped kek none = pure none
  unwrapped kek (some wrapped) = opened (unwrap_dek p kek wrapped)

  abbrev pub key_of_row : Buffer → String → Draws → Option KeyRow → Tx (Option Buffer)
  key_of_row kek tenant draws none = do
    write (λ db. record db {
      keys =
          insert tenant (record { wrapped_dek = some (wrap_dek p kek draws.wrap_iv draws.dek) })
            db.keys;
    })
    pure (some draws.dek)
  key_of_row kek tenant draws (some r) = unwrapped kek r.wrapped_dek

  unfoldable pub tenant_dek : Option Buffer → String → Draws → Tx (Option Buffer)
  tenant_dek none tenant draws = pure none
  tenant_dek (some kek) tenant draws = do
    row ← read (λ db. first (select tenant any_row db.keys))
    key_of_row kek tenant draws row

  abbrev pub stored_map : Option Buffer → Draws → SeamMap → Value
  stored_map none draws m = seam_map_json m
  stored_map (some dek) draws m = obj (
      field "__enc" (str (encrypt_payload p dek draws.payload_iv (stringify (seam_map_json m))))
        end)

  -- `JSON.parse` of a decrypted payload; a failure of either throws.
  abbrev pub parsed_json : Option Value → Tx (Option Value)
  parsed_json none = throw failure
  parsed_json (some v) = pure (some v)

  abbrev pub decrypted : Option String → Tx (Option Value)
  decrypted none = throw failure
  decrypted (some s) = parsed_json (parse_json s)

  abbrev pub with_key : String → Option Buffer → Tx (Option Value)
  with_key s none = pure none
  with_key s (some dek) = decrypted (decrypt_payload p dek s)

  -- The value in the clear, or `none` where its key is gone.
  abbrev pub clear_value :
      Option Buffer → String → Draws → Value → Option String → Tx (Option Value)
  clear_value kek tenant draws value none = pure (some value)
  clear_value kek tenant draws value (some s) = do dek ← tenant_dek kek tenant draws; with_key s dek

module _ (p : Platform) (is_datetime : String → Bool) where
  open p use {Buffer}

  unfoldable pub put_seam_map : Option Buffer → String → Value → String → Draws p → Tx SeamMap
  put_seam_map kek tenant value actor draws = do
    m ← parsed (parse_seam_map is_datetime value)
    dek ← tenant_dek p kek tenant draws
    write (λ db. record db {
      contexts =
          upsert tenant (λ r. r.repo == m.repo)
            (record {
              repo = m.repo;
              seam_map = stored_map p dek draws m;
              agent_version = m.agent_version;
            })
            (λ r. record r { seam_map = stored_map p dek draws m; agent_version = m.agent_version })
            db.contexts;
    })
    audit tenant actor Operation.seam_map m.repo null (summary m)
    pure m

  abbrev pub read_value : String → String → Option Value → Tx (Option SeamMap)
  read_value tenant repo none = pure none
  read_value tenant repo (some value) = do
    m ← parsed (parse_seam_map is_datetime value)
    audit tenant "system" Operation.seam_map repo null (obj (field "action" (str "read") end))
    pure (some m)

  abbrev pub read_row :
      Option Buffer → String → String → Draws p → Option ContextRow → Tx (Option SeamMap)
  read_row kek tenant repo draws none = pure none
  read_row kek tenant repo draws (some r) = do
    value ← clear_value p kek tenant draws r.seam_map (sealed_text (prop "__enc" r.seam_map))
    read_value tenant repo value

  unfoldable pub get_seam_map : Option Buffer → String → String → Draws p → Tx (Option SeamMap)
  get_seam_map kek tenant repo draws = do
    row ← read (λ db. first (select tenant (λ r. r.repo == repo) db.contexts))
    read_row kek tenant repo draws row
