-- ===== src/Collector/App/Traces.antt =====
-- packages/collector/src/app.ts: the route `/v1/traces`. What `mapResourceSpans` of
-- packages/collector/src/otel.ts makes of the body, events and a number of unmapped spans, is an
-- argument.
use toqar.Registry.Store.Settings.{get_ingest_settings}
use toqar.Common.{
  map, ℕ, zero, suc, ◌+◌, ◌≡◌, refl, ◌∙◌, Bool, false, String, Option, none, some, List, [], ◌∷◌,
  ◌==◌, if◌then◌else◌, length, arith, All, eq_refl,
}
use toqar.Json.{Value, obj, Fields}
use toqar.Registry.Store.{Db}
use toqar.Collector.Redact.{Piece, redact_event}
use toqar.Collector.Sink.{Published, acked, backpressure, publish}
use toqar.Collector.App.{
  Context, Collector, Counters, enriched, record_rejection, rejections_for, authenticate,
}
use toqar.Collector.App.Intake.{rejections_for-record_rejection}
use toqar.Collector.App.Tags.{
  Clear, Carries, HandedOver, enriched-Handed, enriched-Carries, authenticate-Clear,
}

pub record Mapped : Type 0 where
  pub events : List Fields
  pub unmapped : ℕ

pub data TraceResponse : Type 0 where
  -- 202, 503 and 401.
  spans_taken : (accepted unmapped : ℕ) → TraceResponse
  spans_deferred : TraceResponse
  spans_unauthorized : TraceResponse

abbrev pub trace_response : ℕ → ℕ → Published → TraceResponse
trace_response accepted unmapped acked = spans_taken accepted unmapped
trace_response accepted unmapped (backpressure n) = spans_deferred

-- The loop over the unmapped spans.
unfoldable pub record_unmapped : String → ℕ → Counters → Counters
record_unmapped tenant zero counters = counters
record_unmapped tenant (suc n) counters =
    record_unmapped tenant n (record_rejection tenant "unmapped_span" counters)

module _ (cut : String → String → List Piece) where
  abbrev pub trace_event : Context → Value → Value
  trace_event c e = if c.settings.redact then (redact_event cut (enriched c e)).0 else enriched c e

  abbrev pub trace_events : Context → List Fields → List Value
  trace_events c [] = []
  trace_events c (fs ∷ more) = trace_event c (obj fs) ∷ trace_events c more

  unfoldable pub take_traces : Context → Mapped → Bool → Collector → Collector × TraceResponse
  take_traces c m reply s =
      let batch = trace_events c m.events in
      let counters = record_unmapped c.tenant m.unmapped s.counters in
      (
        record { sink = (publish s.sink batch reply).0; counters = counters },
        trace_response (length batch) m.unmapped (publish s.sink batch reply).1,
      )

  abbrev pub handle_traces : Option Context → Mapped → Bool → Collector → Collector × TraceResponse
  handle_traces none m reply s = (s, spans_unauthorized)
  handle_traces (some c) m reply s = take_traces c m reply s

  -- `POST /v1/traces`.
  unfoldable pub post_traces :
      (String → String) → Db → Option String → Mapped → Bool → Collector → Collector × TraceResponse
  post_traces hash db header m reply s = handle_traces (authenticate hash header db) m reply s

rejections_for-record_unmapped :
    (t : String) (n : ℕ) (counters : Counters)
    → rejections_for t (record_unmapped t n counters) ≡ rejections_for t counters + n
unfolding record_unmapped
rejections_for-record_unmapped t zero counters = omega arith
rejections_for-record_unmapped t (suc n) counters =
    let one = rejections_for-record_rejection t t "unmapped_span" counters in
    let one' = rw (eq_refl t) at one in
    let more = rejections_for-record_unmapped t n (record_rejection t "unmapped_span" counters) in
    omega (arith, one', more)

record_unmapped-other :
    (t u : String) (n : ℕ) (counters : Counters)
    → (t == u) ≡ false
    → rejections_for u (record_unmapped t n counters) ≡ rejections_for u counters
unfolding record_unmapped
record_unmapped-other t u zero counters h = refl
record_unmapped-other t u (suc n) counters h =
    let one = rejections_for-record_rejection t u "unmapped_span" counters in
    record_unmapped-other t u n (record_rejection t "unmapped_span" counters) h ∙ rw h at one

module _ (cut : String → String → List Piece) where
  trace_events-AllCarry :
      (c : Context) (events : List Fields)
      → Clear cut c.settings.residency
      → All (Carries cut c) (trace_events cut c events)
  trace_events-AllCarry c [] clear = tt
  trace_events-AllCarry c (fs ∷ more) clear =
      (enriched-Carries cut c fs clear, trace_events-AllCarry c more clear)

  trace_events-HandedOver :
      (c : Context) (events : List Fields)
      → HandedOver cut c (map obj events) (trace_events cut c events)
  trace_events-HandedOver c [] = tt
  trace_events-HandedOver c (fs ∷ more) =
      (enriched-Handed cut c fs (trace_event cut c (obj fs)) refl, trace_events-HandedOver c more)

  length-trace_events :
      (c : Context) (events : List Fields) → length (trace_events cut c events) ≡ length events
  length-trace_events c [] = refl
  length-trace_events c (fs ∷ more) = omega (arith, length-trace_events c more)

  -- A request for a tenant: what is published is the mapped events with the tenant's marks.
  pub record IsTraced (c : Context) (m : Mapped) (reply : Bool) (s : Collector)
      (result : Collector × TraceResponse) : Type 0 where
    pub batch : List Value
    pub handed : HandedOver cut c (map obj m.events) batch
    pub marked : All (Carries cut c) batch
    pub every : length batch ≡ length m.events
    pub published : result.0.sink ≡ (publish s.sink batch reply).0
    pub answered :
        result.1 ≡ trace_response (length m.events) m.unmapped (publish s.sink batch reply).1
    pub counted_all :
        rejections_for c.tenant result.0.counters ≡ rejections_for c.tenant s.counters + m.unmapped
    pub others :
        (u : String)
        → (c.tenant == u) ≡ false
        → rejections_for u result.0.counters ≡ rejections_for u s.counters

  abbrev pub TraceDue :
      Option Context → Mapped → Bool → Collector → Collector × TraceResponse → Type 0
  TraceDue none m reply s result = result ≡ (s, spans_unauthorized)
  TraceDue (some c) m reply s result = IsTraced c m reply s result

  handle_traces-Due :
      (o : Option Context) (m : Mapped) (reply : Bool) (s : Collector)
      → ((c : Context) → o ≡ some c → Clear cut c.settings.residency)
      → TraceDue o m reply s (handle_traces cut o m reply s)
  unfolding take_traces
  handle_traces-Due none m reply s clear = refl
  handle_traces-Due (some c) m reply s clear = record {
    batch = trace_events cut c m.events;
    handed = trace_events-HandedOver c m.events;
    marked = trace_events-AllCarry c m.events (clear c refl);
    every = length-trace_events c m.events;
    published = refl;
    answered = rw (length-trace_events c m.events) refl;
    counted_all = rejections_for-record_unmapped c.tenant m.unmapped s.counters;
    others = λ u h. record_unmapped-other c.tenant u m.unmapped s.counters h;
  }

  -- A request to `/v1/traces` whose token resolves to no tenant changes nothing. Any other, where no other
  -- publication comes between the two steps of its own, hands over the mapped events in their order, each
  -- with all its other fields, the tenant's id, retention and residency put over its own, and redacted
  -- unless the tenant opted out; where no recognizer matches in a tenant's residency, redaction leaves
  -- these three as they are. It answers with the number of events and that of the unmapped spans, or
  -- with 503 when the sink refuses them, and counts the unmapped spans for the tenant and for nobody
  -- else, whatever the sink does.
  pub post_traces-Due :
      (hash : String → String) (db : Db) (header : Option String) (m : Mapped) (reply : Bool)
      (s : Collector)
      → ((u : String) → Clear cut (get_ingest_settings u db).residency)
      → TraceDue (authenticate hash header db) m reply s (post_traces cut hash db header m reply s)
  unfolding post_traces
  post_traces-Due hash db header m reply s clear =
      handle_traces-Due (authenticate hash header db) m reply s
        (authenticate-Clear cut hash header db clear)
