-- ===== src/Registry/Store/Findings.antt =====
-- packages/registry-service/src/store.ts: findings, published under the citation check or rejected,
-- and their deliveries.
pub mod Citing
mod Tests
use Prim.Native.String.{◌++◌}
use toqar.Common.{
  first, ℕ, String, Bool, true, false, Option, none, some, List, [], ◌∷◌, ◌==◌, take, if◌then◌else◌,
}
use toqar.Common.Texts.{slice_to, join}
use toqar.Json.{Value, null, str, obj, field, end}
use toqar.Registry.Findings.{Finding, parse_given, finding_json, validate_finding_citations}
use toqar.Registry.Requests.{Delivery, parse_delivery}
use toqar.Registry.Table.{select, insert, newest_first}
use toqar.Registry.Store.{
  FindingRow, DeliveryRow, RejectionRow, Db, Operation, Tx, ◌>>=◌, ◌>>◌, pure, read, write, parsed,
  throw, failure, audit,
}

pub data PublishResult : Type 0 where
  published : (finding_id : String) → PublishResult
  rejected : (uncited : List String) → PublishResult

-- The draft of a rejection that is stored, and so is there.
abbrev pub draft_of : Option Value → Value
draft_of none = null
draft_of (some v) = v

-- Whether the database takes a value as `jsonb`: it refuses a text with a NUL, for one.
module _ (claims : String → List (ℕ × String)) (is_tag : String → Bool)
    (stores : Value → Bool) where
  -- `JSON.stringify` of a value that is not there is no text, and the column is NOT NULL.
  abbrev pub stores_given : Option Value → Bool
  stores_given none = false
  stores_given (some v) = stores v

  -- An insert that the database refuses throws.
  abbrev pub inserted : Bool → (Db → Db) → Tx (Unit {0})
  inserted false f = throw failure
  inserted true f = write f

  abbrev pub publish_checked :
      String → Option Value → String → String → Option (List String) → Tx PublishResult
  publish_checked tenant value actor uuid (some uncited) = do
    inserted (stores_given value) (λ db. record db {
      rejections =
          insert tenant
            (record { reason = "uncited numbers: " ++ join ", " uncited; draft = draft_of value })
            db.rejections;
    })
    pure (rejected uncited)
  publish_checked tenant value actor uuid none = do
    finding ← parsed (parse_given value)
    inserted (stores (finding_json finding)) (λ db. record db {
      findings =
          insert tenant (record { finding_id = "f_" ++ uuid; finding = finding_json finding })
            db.findings;
    })
    audit tenant actor Operation.finding (slice_to 120 finding.headline) null (
        obj (
          field "finding_id" (str ("f_" ++ uuid))
            (field "layer" (str finding.layer) (field "severity" (str finding.severity) end))))
    pure (published ("f_" ++ uuid))

  -- `uuid` is the random part of the finding's id.
  unfoldable pub publish_finding : String → Option Value → String → String → Tx PublishResult
  publish_finding tenant value actor uuid =
      publish_checked tenant value actor uuid (validate_finding_citations claims is_tag value)

unfoldable pub list_findings : String → ℕ → Tx (List FindingRow)
list_findings tenant limit =
    read (λ db. take limit (newest_first (select tenant (λ r. true) db.findings)))

abbrev pub with_deliveries :
    String → String → Option FindingRow → Tx (Option (FindingRow × List DeliveryRow))
with_deliveries tenant finding_id none = pure none
with_deliveries tenant finding_id (some r) = do
  rows ← read (λ db. newest_first (select tenant (λ d. d.finding_id == finding_id) db.deliveries))
  pure (some (r, rows))

unfoldable pub get_finding : String → String → Tx (Option (FindingRow × List DeliveryRow))
get_finding tenant finding_id = do
  found ← read (λ db. first (select tenant (λ r. r.finding_id == finding_id) db.findings))
  with_deliveries tenant finding_id found

abbrev pub record_found : String → String → Delivery → Option FindingRow → Tx Bool
record_found tenant finding_id delivery none = pure false
record_found tenant finding_id delivery (some r) = do
  write (λ db. record db {
    deliveries =
        insert tenant (record { finding_id = finding_id; delivery = delivery }) db.deliveries;
  })
  pure true

unfoldable pub record_delivery : String → String → Value → Tx Bool
record_delivery tenant finding_id value = do
  delivery ← parsed (parse_delivery value)
  found ← read (λ db. first (select tenant (λ r. r.finding_id == finding_id) db.findings))
  record_found tenant finding_id delivery found

unfoldable pub list_finding_rejections : String → Tx (List RejectionRow)
list_finding_rejections tenant = read (λ db. newest_first (select tenant (λ r. true) db.rejections))
