-- ===== src/Collector/App.antt =====
-- packages/collector/src/app.ts: the hook that authenticates a request, the route `/v1/events`, and the
-- rejection counters. The broker's reply to the publication of a request is an argument.
pub mod Intake
pub mod Tags
pub mod Batch
pub mod Service
pub mod Traces
mod Tests
use Prim.Native.String.{String}
use Prim.Native.Char.{code}
use toqar.Common.{
  ℕ, suc, ◌+◌, Bool, true, false, not, Option, none, some, List, [], ◌∷◌, ◌++◌, ◌==◌, if◌then◌else◌,
  eqb, length, filter, includes, map_get, map_set,
}
use toqar.Json.{
  Value, null, bool, num, decimal, str, arr, obj, Items, nil, item, Fields, end, field, fields,
  fields_of, items,
}
use toqar.Registry.Shapes.{
  required, Check, snake_case, object, Shape, done, member, Issue, Formats, keys, cleaned_fields,
  issues,
}
use toqar.Registry.Events.{
  envelope, toqar_event_names, Parsed, accepted, rejected, safe_parsed, parse_event,
}
use toqar.Registry.Store.{Db}
use toqar.Registry.Store.Tokens.{find_tenant_by_token}
use toqar.Registry.Store.Settings.{IngestSettings, get_ingest_settings}
use toqar.Collector.Redact.{Piece, Counts, counted, total, redact_event}
use toqar.Collector.Sink.{BufferedSink, Published, acked, backpressure, publish}

-- `header.startsWith(p) ? header.slice(p.length) : undefined`.
abbrev pub after_prefix : String → String → Option String
after_prefix String.[] s = some s
after_prefix (String.◌∷◌ c p) String.[] = none
after_prefix (String.◌∷◌ c p) (String.◌∷◌ d s) =
    if eqb (code c) (code d) then after_prefix p s else none

-- What the hook leaves on the request.
pub record Context : Type 0 where
  pub tenant : String
  pub settings : IngestSettings

-- An absent or an empty bearer token names nobody.
abbrev pub bearer_of : Option String → Option String
bearer_of none = none
bearer_of (some header) = after_prefix "Bearer " header

abbrev pub tenant_of : (String → Option String) → Option String → Option String
tenant_of find none = none
tenant_of find (some bearer) = if bearer == "" then none else find bearer

abbrev pub context_of : Db → Option String → Option Context
context_of db none = none
context_of db (some tenant) =
    if tenant == ""
    then none
    else some (record { tenant = tenant; settings = get_ingest_settings tenant db })

-- The hook `preHandler`, on the routes below `/v1/`.
unfoldable pub authenticate : (String → String) → Option String → Db → Option Context
authenticate hash header db =
    context_of db (tenant_of (λ bearer. find_tenant_by_token hash bearer db) (bearer_of header))

-- `RejectionCounters`: counts by tenant, then by reason.
abbrev pub Counters : Type 0
Counters = List (String × Counts)

abbrev pub or_none : Option Counts → Counts
or_none none = []
or_none (some counts) = counts

unfoldable pub record_rejection : String → String → Counters → Counters
record_rejection tenant reason counters =
    map_set counters tenant (counted reason 1 (or_none (map_get counters tenant)))

-- The total of `RejectionCounters.for`.
unfoldable pub rejections_for : String → Counters → ℕ
rejections_for tenant counters = total (or_none (map_get counters tenant))

pub record Rejection : Type 0 where
  pub index : ℕ
  pub reasons : List Issue

-- What the loop of the route has gathered.
pub record Gathered : Type 0 where
  pub accepted : List Value
  pub rejected : List Rejection
  pub redacted : ℕ
  pub counters : Counters

pub data Response : Type 0 where
  -- 202, 503 and 401.
  taken_in : (accepted : ℕ) (rejected : List Rejection) (redacted : ℕ) → Response
  ingest_backpressure : Response
  unauthorized : Response

pub record Collector : Type 0 where
  pub sink : BufferedSink Value
  pub counters : Counters

-- `{ ...value, [key]: v }`: a key that is there keeps its place.
abbrev pub with_field : String → Value → Value → Value
with_field key v (obj fs) = obj (fields_of (map_set (fields fs) key v))
with_field key v other = other

abbrev pub enriched : Context → Value → Value
enriched c v = with_field "residency" (str c.settings.residency) (
    with_field "retention_days" (num c.settings.retention_days)
      (with_field "tenant_id" (str c.tenant) v))

abbrev pub starts_at_event : List String → Bool
starts_at_event [] = false
starts_at_event (key ∷ path) = key == "event"

abbrev pub concerns_event : List Issue → Bool
concerns_event [] = false
concerns_event (i ∷ is) = if starts_at_event i.path then true else concerns_event is

abbrev pub reason_class : List Issue → String
reason_class is = if concerns_event is then "invalid_event_name" else "schema_validation"

abbrev pub product_shape : Shape
product_shape = envelope (member required "event" snake_case done)

abbrev pub unknown_keys : List String → Fields → Fields
unknown_keys known end = end
unknown_keys known (field k v fs) =
    let rest = unknown_keys known fs in if includes known k then rest else field k v rest

-- `.passthrough()`: the other keys follow those of the schema.
abbrev pub append_fields : Fields → Fields → Fields
append_fields end gs = gs
append_fields (field k v fs) gs = field k v (append_fields fs gs)

abbrev pub passed_through : Value → Value
passed_through (obj fs) =
    obj (append_fields (cleaned_fields product_shape fs) (unknown_keys (keys product_shape) fs))
passed_through v = v

-- `String(value ?? '')`, where `show` writes a value that is no text.
abbrev pub shown : (Value → String) → Option Value → String
shown show none = ""
shown show (some null) = ""
shown show (some (str s)) = s
shown show (some v) = show v

abbrev pub name_of : (Value → String) → Value → String
name_of show (obj fs) = shown show (map_get (fields fs) "event")
name_of show v = ""

module _ (formats : Formats) (show : Value → String) (cut : String → String → List Piece) where
  unfoldable pub parse_product : Value → Parsed
  parse_product v = safe_parsed (issues formats (object product_shape) [] v) (passed_through v)

  unfoldable pub parse_any : Value → Parsed
  parse_any v =
      if includes toqar_event_names (name_of show v) then parse_event formats v else parse_product v

  module _ (c : Context) where
    abbrev pub gather_accepted : Value → Gathered → Gathered
    gather_accepted v g =
        if c.settings.redact
        then record g {
          accepted = g.accepted ++ (redact_event cut (enriched c v)).0 ∷ [];
          redacted = g.redacted + total (redact_event cut (enriched c v)).1;
        }
        else record g { accepted = g.accepted ++ enriched c v ∷ [] }

    abbrev pub gather_rejected : ℕ → List Issue → Gathered → Gathered
    gather_rejected index is g = record g {
      rejected = g.rejected ++ record { index = index; reasons = is } ∷ [];
      counters = record_rejection c.tenant (reason_class is) g.counters;
    }

    abbrev pub gather_parsed : ℕ → Parsed → Gathered → Gathered
    gather_parsed index (accepted v) g = gather_accepted v g
    gather_parsed index (rejected is) g = gather_rejected index is g

    -- `events.forEach(…)`, from an index on.
    unfoldable pub gather : ℕ → List Value → Gathered → Gathered
    gather index [] g = g
    gather index (v ∷ vs) g = gather (suc index) vs (gather_parsed index (parse_any v) g)

    abbrev pub nothing_gathered : Counters → Gathered
    nothing_gathered counters = record {
      accepted = [];
      rejected = [];
      redacted = 0;
      counters = counters;
    }

    abbrev pub respond : Gathered → Published → Response
    respond g acked = taken_in (length g.accepted) g.rejected g.redacted
    respond g (backpressure n) = ingest_backpressure

    abbrev pub hand_over : Gathered → Bool → Collector → Collector × Response
    hand_over g reply s = (
      record { sink = (publish s.sink g.accepted reply).0; counters = g.counters },
      respond g (publish s.sink g.accepted reply).1,
    )

    unfoldable pub take_in : List Value → Bool → Collector → Collector × Response
    take_in events reply s = hand_over (gather 0 events (nothing_gathered s.counters)) reply s

  -- A body without a list of events is one with none.
  abbrev pub events_of : Option Value → List Value
  events_of (some (arr vs)) = items vs
  events_of found = []

  abbrev pub body_events : Value → List Value
  body_events (obj fs) = events_of (map_get (fields fs) "events")
  body_events v = []

  abbrev pub handle : Option Context → Value → Bool → Collector → Collector × Response
  handle none body reply s = (s, unauthorized)
  handle (some c) body reply s = take_in c (body_events body) reply s

  -- `POST /v1/events`.
  unfoldable pub post_events :
      (String → String) → Db → Option String → Value → Bool → Collector → Collector × Response
  post_events hash db header body reply s = handle (authenticate hash header db) body reply s
