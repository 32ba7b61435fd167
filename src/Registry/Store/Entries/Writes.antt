-- ===== src/Registry/Store/Entries/Writes.antt =====
-- packages/registry-service/src/store.ts: what is stored under an event after a write.
use toqar.Common.{
  first, String, Option, none, some, [], ◌∷◌, ◌≡◌, ◌==◌, ◌&&◌, if◌then◌else◌, arith, eq_iff,
}
use toqar.Json.{Value}
use toqar.Registry.Table.{Rows, select, upsert}
use toqar.Registry.Store.{EntryRow}

abbrev pub entry_of : Option EntryRow → Option Value
entry_of none = none
entry_of (some r) = some r.entry

-- The JSON that a tenant has under an event.
unfoldable pub stored : String → String → Rows EntryRow → Option Value
unfolding select
stored tenant event rows = entry_of (first (select tenant (λ r. r.event == event) rows))

pub stored-upsert :
    (t u ev k : String) (v : Value) (rows : Rows EntryRow)
    → stored u k (
        upsert t
          (λ r. r.event == ev)
          (record { event = ev; entry = v })
          (λ r. record r { entry = v })
          rows)
      ≡ (if (t == u) && (ev == k) then some v else stored u k rows)
unfolding stored upsert
stored-upsert t u ev k v [] = ground arith
stored-upsert t u ev k v ((w, r) ∷ rows) = ground (
  arith,
  stored-upsert t u ev k v rows,
  eq_iff w t,
  eq_iff w u,
  eq_iff t u,
  eq_iff r.event ev,
  eq_iff r.event k,
  eq_iff ev k,
)
