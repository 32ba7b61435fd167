-- ===== src/Registry/Store/Isolation/Findings.antt =====
-- packages/registry-service/src/store.ts: the methods on findings are scoped.
use toqar.Common.{ℕ, String, Bool, true, false, List, Option, none, some, first, take}
use toqar.Json.{Value}
use toqar.Registry.Findings.{finding_json, parse_given, validate_finding_citations}
use toqar.Registry.Requests.{Delivery, parse_delivery}
use toqar.Registry.Table.Local.{insert-IsLocal}
use toqar.Registry.Table.{newest_first}
use toqar.Registry.Store.{FindingRow, Db, write}
use toqar.Registry.Store.Findings.{
  stores_given, inserted, publish_checked, publish_finding, list_findings, with_deliveries,
  get_finding, record_found, record_delivery, list_finding_rejections,
}
use toqar.Registry.Store.Isolation.{
  IsScoped, throw-IsScoped, pure-IsScoped, parsed-IsScoped, bind-IsScoped, then-IsScoped,
  write-IsScoped, select-IsScoped,
}
use toqar.Registry.Store.Isolation.Tables.{
  findings_table, deliveries_table, rejections_table, audit-IsScoped,
}

module _ (t : String) where
  module _ (claims : String → List (ℕ × String)) (is_tag : String → Bool)
      (stores : Value → Bool) where
    inserted-IsScoped :
        (takes : Bool) (f : Db → Db)
        → IsScoped t (write f)
        → IsScoped t (inserted claims is_tag stores takes f)
    inserted-IsScoped false f h = throw-IsScoped t _ _
    inserted-IsScoped true f h = h

    publish_checked-IsScoped :
        (value : Option Value) (actor uuid : String) (uncited : Option (List String))
        → IsScoped t (publish_checked claims is_tag stores t value actor uuid uncited)
    publish_checked-IsScoped value actor uuid (some uncited) =
        then-IsScoped t _ _
          (inserted-IsScoped (stores_given claims is_tag stores value) _
            (write-IsScoped t rejections_table _ (insert-IsLocal t _)))
          (pure-IsScoped t _)
    publish_checked-IsScoped value actor uuid none =
        bind-IsScoped t _ _ (parsed-IsScoped t (parse_given value)) λ finding.
          then-IsScoped t _ _
            (inserted-IsScoped (stores (finding_json finding)) _
              (write-IsScoped t findings_table _ (insert-IsLocal t _)))
            (then-IsScoped t _ _ (audit-IsScoped t actor _ _ _ _) (pure-IsScoped t _))

    pub publish_finding-IsScoped :
        (value : Option Value) (actor uuid : String)
        → IsScoped t (publish_finding claims is_tag stores t value actor uuid)
    unfolding publish_finding
    publish_finding-IsScoped value actor uuid =
        publish_checked-IsScoped value actor uuid (validate_finding_citations claims is_tag value)

  pub list_findings-IsScoped : (limit : ℕ) → IsScoped t (list_findings t limit)
  unfolding list_findings
  list_findings-IsScoped limit =
      select-IsScoped t findings_table _ λ rows. take limit (newest_first rows)

  with_deliveries-IsScoped :
      (finding_id : String) (found : Option FindingRow)
      → IsScoped t (with_deliveries t finding_id found)
  with_deliveries-IsScoped finding_id none = pure-IsScoped t _
  with_deliveries-IsScoped finding_id (some r) =
      select-IsScoped t deliveries_table _ λ rows. some (r, newest_first rows)

  pub get_finding-IsScoped : (finding_id : String) → IsScoped t (get_finding t finding_id)
  unfolding get_finding
  get_finding-IsScoped finding_id =
      bind-IsScoped t _ _ (select-IsScoped t findings_table _ first)
        λ found. with_deliveries-IsScoped finding_id found

  record_found-IsScoped :
      (finding_id : String) (delivery : Delivery) (found : Option FindingRow)
      → IsScoped t (record_found t finding_id delivery found)
  record_found-IsScoped finding_id delivery none = pure-IsScoped t _
  record_found-IsScoped finding_id delivery (some r) =
      then-IsScoped t _ _ (write-IsScoped t deliveries_table _ (insert-IsLocal t _))
        (pure-IsScoped t _)

  pub record_delivery-IsScoped :
      (finding_id : String) (value : Value) → IsScoped t (record_delivery t finding_id value)
  unfolding record_delivery
  record_delivery-IsScoped finding_id value =
      bind-IsScoped t _ _ (parsed-IsScoped t (parse_delivery value)) λ delivery.
        bind-IsScoped t _ _ (select-IsScoped t findings_table _ first)
          λ found. record_found-IsScoped finding_id delivery found

  pub list_finding_rejections-IsScoped : IsScoped t (list_finding_rejections t)
  unfolding list_finding_rejections
  list_finding_rejections-IsScoped = select-IsScoped t rejections_table _ newest_first
