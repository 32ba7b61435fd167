-- ===== src/Collector/App/Service.antt =====
-- packages/collector/src/app.ts: what a request to `/v1/events` does as a whole, from its token to the
-- broker.
use toqar.Collector.App.Batch.{kept_events, refused_events}
use toqar.Common.{◌+◌, ◌≡◌, Bool, false, String, Option, none, some, List, ◌==◌, length, All}
use toqar.Json.{Value}
use toqar.Registry.Shapes.{Formats}
use toqar.Collector.Redact.{Piece}
use toqar.Collector.Sink.{publish}
use toqar.Collector.App.{
  Context, Collector, Response, taken_in, ingest_backpressure, unauthorized, rejections_for,
}
use toqar.Collector.App.Tags.{Carries, HandedOver}

module _ (formats : Formats) (show : Value → String) (cut : String → String → List Piece) where
  -- The handle to a request over `events` of which `batch` was published.
  abbrev Answers : Context → List Value → List Value → Collector → Collector → Response → Type 0
  Answers c events batch s s' (taken_in n rejected redacted) =
      (n ≡ length batch)
      × (rejected ≡ refused_events formats show cut c 0 events)
      × (n + length rejected ≡ length events)
      × (rejections_for c.tenant s'.counters ≡ rejections_for c.tenant s.counters + length rejected)
  Answers c events batch s s' ingest_backpressure = s'.sink.buffer ≡ s.sink.buffer
  Answers c events batch s s' unauthorized = ⊥

  pub record IsServed (c : Context) (events : List Value) (reply : Bool) (s : Collector)
      (result : Collector × Response) : Type 0 where
    pub batch : List Value
    pub handed : HandedOver cut c (kept_events formats show cut c events) batch
    pub marked : All (Carries cut c) batch
    pub published : result.0.sink ≡ (publish s.sink batch reply).0
    pub answered : Answers c events batch s result.0 result.1
    pub others :
        (u : String)
        → (c.tenant == u) ≡ false
        → rejections_for u result.0.counters ≡ rejections_for u s.counters

  -- What a request that carries this context, or none, is due.
  abbrev pub Due : Option Context → List Value → Bool → Collector → Collector × Response → Type 0
  Due none events reply s result = result ≡ (s, unauthorized)
  Due (some c) events reply s result = IsServed c events reply s result
