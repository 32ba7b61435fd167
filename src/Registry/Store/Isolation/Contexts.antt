-- ===== src/Registry/Store/Isolation/Contexts.antt =====
-- packages/registry-service/src/store.ts: the methods on keys and seam maps are scoped.
use toqar.Common.{String, Bool, Option, none, some, first}
use toqar.Json.{Value, prop}
use toqar.Registry.SeamMap.{parse_seam_map}
use toqar.Registry.Crypto.{Platform, unwrap_dek, decrypt_payload}
use toqar.Registry.Table.Local.{insert-IsLocal, upsert-IsLocal}
use toqar.Registry.Store.{ContextRow, KeyRow, failure}
use toqar.Registry.Store.SeamMaps.{
  sealed_text, crypto_shred_tenant, Draws, opened, unwrapped, key_of_row, tenant_dek, parsed_json,
  decrypted, with_key, clear_value, put_seam_map, read_value, read_row, get_seam_map,
}
use toqar.Registry.Store.Isolation.{
  IsScoped, pure-IsScoped, throw-IsScoped, parsed-IsScoped, bind-IsScoped, then-IsScoped,
  write-IsScoped, select-IsScoped,
}
use toqar.Registry.Store.Isolation.Tables.{contexts_table, keys_table, audit-IsScoped}

module _ (t : String) where
  pub crypto_shred_tenant-IsScoped : (actor : String) → IsScoped t (crypto_shred_tenant t actor)
  unfolding crypto_shred_tenant
  crypto_shred_tenant-IsScoped actor =
      then-IsScoped t _ _ (write-IsScoped t keys_table _ (upsert-IsLocal t _ _ _))
        (audit-IsScoped t actor _ _ _ _)

  module _ (p : Platform) where
    open p use {Buffer, parse_json}

    opened-IsScoped : (b : Option Buffer) → IsScoped t (opened p b)
    opened-IsScoped none = throw-IsScoped t _ failure
    opened-IsScoped (some b) = pure-IsScoped t _

    unwrapped-IsScoped :
        (kek : Buffer) (wrapped : Option String) → IsScoped t (unwrapped p kek wrapped)
    unwrapped-IsScoped kek none = pure-IsScoped t _
    unwrapped-IsScoped kek (some wrapped) = opened-IsScoped (unwrap_dek p kek wrapped)

    key_of_row-IsScoped :
        (kek : Buffer) (draws : Draws p) (row : Option KeyRow)
        → IsScoped t (key_of_row p kek t draws row)
    key_of_row-IsScoped kek draws none =
        then-IsScoped t _ _ (write-IsScoped t keys_table _ (insert-IsLocal t _)) (pure-IsScoped t _)
    key_of_row-IsScoped kek draws (some r) = unwrapped-IsScoped kek r.wrapped_dek

    tenant_dek-IsScoped :
        (kek : Option Buffer) (draws : Draws p) → IsScoped t (tenant_dek p kek t draws)
    unfolding tenant_dek
    tenant_dek-IsScoped none draws = pure-IsScoped t _
    tenant_dek-IsScoped (some kek) draws =
        bind-IsScoped t _ _ (select-IsScoped t keys_table _ first)
          λ row. key_of_row-IsScoped kek draws row

    parsed_json-IsScoped : (v : Option Value) → IsScoped t (parsed_json p v)
    parsed_json-IsScoped none = throw-IsScoped t _ failure
    parsed_json-IsScoped (some v) = pure-IsScoped t _

    decrypted-IsScoped : (s : Option String) → IsScoped t (decrypted p s)
    decrypted-IsScoped none = throw-IsScoped t _ failure
    decrypted-IsScoped (some s) = parsed_json-IsScoped (parse_json s)

    with_key-IsScoped : (s : String) (dek : Option Buffer) → IsScoped t (with_key p s dek)
    with_key-IsScoped s none = pure-IsScoped t _
    with_key-IsScoped s (some dek) = decrypted-IsScoped (decrypt_payload p dek s)

    clear_value-IsScoped :
        (kek : Option Buffer) (draws : Draws p) (value : Value) (s : Option String)
        → IsScoped t (clear_value p kek t draws value s)
    clear_value-IsScoped kek draws value none = pure-IsScoped t _
    clear_value-IsScoped kek draws value (some s) =
        bind-IsScoped t _ _ (tenant_dek-IsScoped kek draws) λ dek. with_key-IsScoped s dek

    module _ (is_datetime : String → Bool) where
      pub put_seam_map-IsScoped :
          (kek : Option Buffer) (value : Value) (actor : String) (draws : Draws p)
          → IsScoped t (put_seam_map p is_datetime kek t value actor draws)
      unfolding put_seam_map
      put_seam_map-IsScoped kek value actor draws =
          bind-IsScoped t _ _ (parsed-IsScoped t (parse_seam_map is_datetime value)) λ m.
            bind-IsScoped t _ _ (tenant_dek-IsScoped kek draws) λ dek.
              then-IsScoped t _ _ (write-IsScoped t contexts_table _ (upsert-IsLocal t _ _ _))
                (then-IsScoped t _ _ (audit-IsScoped t actor _ _ _ _) (pure-IsScoped t _))

      read_value-IsScoped :
          (repo : String) (value : Option Value)
          → IsScoped t (read_value p is_datetime t repo value)
      read_value-IsScoped repo none = pure-IsScoped t _
      read_value-IsScoped repo (some value) =
          bind-IsScoped t _ _ (parsed-IsScoped t (parse_seam_map is_datetime value))
            λ m. then-IsScoped t _ _ (audit-IsScoped t "system" _ _ _ _) (pure-IsScoped t _)

      read_row-IsScoped :
          (kek : Option Buffer) (repo : String) (draws : Draws p) (row : Option ContextRow)
          → IsScoped t (read_row p is_datetime kek t repo draws row)
      read_row-IsScoped kek repo draws none = pure-IsScoped t _
      read_row-IsScoped kek repo draws (some r) =
          bind-IsScoped t _ _
            (clear_value-IsScoped kek draws r.seam_map (sealed_text (prop "__enc" r.seam_map)))
            λ value. read_value-IsScoped repo value

      pub get_seam_map-IsScoped :
          (kek : Option Buffer) (repo : String) (draws : Draws p)
          → IsScoped t (get_seam_map p is_datetime kek t repo draws)
      unfolding get_seam_map
      get_seam_map-IsScoped kek repo draws =
          bind-IsScoped t _ _ (select-IsScoped t contexts_table _ first)
            λ row. read_row-IsScoped kek repo draws row
