-- ===== src/Registry/Crypto.antt =====
-- packages/registry-service/src/crypto.ts: the envelope of the payloads. Node's AES-256-GCM, with the
-- IV it is given and the text that carries IV, tag and ciphertext, is a parameter, and so is
-- JSON.
use Prim.Native.String.{◌++◌}
use Prim.Native.String.append
use text.Mathlib.Text.{starts_with}
use text.Mathlib.TextPositions.{starts_with-append}
use toqar.Common.{ℕ, zero, suc, String, Bool, true, Option, none, some, ◌≡◌, ap, ◌∙◌, if◌then◌else◌}
use toqar.Json.{Value}

pub record Platform : Type 1 where
  pub Buffer : Type 0
  pub Iv : Type 0
  pub of_text : String → Buffer
  pub to_text : Buffer → String
  pub seal : Buffer → Iv → Buffer → String
  -- A wrong key or a changed text fails the tag.
  pub open_sealed : Buffer → String → Option Buffer
  -- `JSON.stringify` and `JSON.parse`, which throws on what is no JSON.
  pub stringify : Value → String
  pub parse_json : String → Option Value
  pub to_text-of_text : (s : String) → to_text (of_text s) ≡ s
  pub open-seal : (k : Buffer) (iv : Iv) (b : Buffer) → open_sealed k (seal k iv b) ≡ some b

-- `s.slice(n)`.
abbrev pub skip : ℕ → String → String
skip zero s = s
skip (suc n) String.[] = String.[]
skip (suc n) (String.◌∷◌ c s) = skip n s

abbrev count : String → ℕ
count String.[] = zero
count (String.◌∷◌ c s) = suc (count s)

skip-append : (s t : String) → skip (count s) (s ++ t) ≡ t
skip-append String.[] t = ap (skip zero) (append.nil t)
skip-append (String.◌∷◌ c s) t = ap (skip (suc (count s))) (append.cons c s t) ∙ skip-append s t

abbrev pub prefix : String
prefix = "enc:v1:"

unfoldable pub is_encrypted : String → Bool
is_encrypted value = starts_with value prefix

module _ (p : Platform) where
  open p use {Buffer, Iv, of_text, to_text, seal, open_sealed, to_text-of_text, open-seal}

  unfoldable pub wrap_dek : Buffer → Iv → Buffer → String
  wrap_dek kek iv dek = seal kek iv dek

  unfoldable pub unwrap_dek : Buffer → String → Option Buffer
  unwrap_dek kek wrapped = open_sealed kek wrapped

  unfoldable pub encrypt_payload : Buffer → Iv → String → String
  encrypt_payload dek iv plaintext = prefix ++ seal dek iv (of_text plaintext)

  abbrev as_text : Option Buffer → Option String
  as_text none = none
  as_text (some b) = some (to_text b)

  -- `none` is a thrown error.
  unfoldable pub decrypt_payload : Buffer → String → Option String
  decrypt_payload dek sealed =
      if is_encrypted sealed then as_text (open_sealed dek (skip 7 sealed)) else none

  pub decrypt-encrypt :
      (dek : Buffer) (iv : Iv) (s : String)
      → (is_encrypted (encrypt_payload dek iv s) ≡ true)
        × (decrypt_payload dek (encrypt_payload dek iv s) ≡ some s)
  unfolding is_encrypted encrypt_payload decrypt_payload
  decrypt-encrypt dek iv s = (
    starts_with-append prefix (seal dek iv (of_text s)),
    rw (starts_with-append prefix (seal dek iv (of_text s))) (
        rw (skip-append prefix (seal dek iv (of_text s)))
          (rw (open-seal dek iv (of_text s)) (ap some (to_text-of_text s)))),
  )
