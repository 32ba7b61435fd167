-- ===== src/Collector/Sink.antt =====
-- packages/collector/src/sink.ts: the buffered sink between the intake routes and the broker.
-- `publish` awaits the broker in its middle, so it is two steps, `begin` and `settle`, and
-- `publish` is their composition with no other call in between.
pub mod NoLoss
pub mod Delivery
pub mod Overlap
mod Tests
use toqar.Common.{ℕ, Bool, true, false, ◌||◌, List, [], ◌++◌, ◌≡◌, if◌then◌else◌, leb, length}

pub record BufferedSink (A : Type 0) : Type 0 where
  pub buffer : List A
  pub degraded : Bool
  pub capacity : ℕ

-- What a call of `publish` holds in its variables while it waits.
pub record Publication (A : Type 0) : Type 0 where
  pub backlog : List A
  pub messages : List A

-- How a call ends: it returns, or throws `BackpressureError` with the number of events buffered.
pub data Published : Type 0 where
  acked : Published
  backpressure : ℕ → Published

pub data Broker : Type 0 where
  up degraded : Broker

pub record SinkHealth : Type 0 where
  pub broker : Broker
  pub buffered : ℕ

module _ {A : Type 0} where
  abbrev pub pending : Publication A → List A
  pending p = p.backlog ++ p.messages

  unfoldable pub begin : BufferedSink A → List A → BufferedSink A × Publication A
  begin s messages = (record s { buffer = [] }, record { backlog = s.buffer; messages = messages })

  -- The broker is called only when something is pending.
  abbrev pub is_published : Publication A → Bool → Bool
  is_published p reply = leb (length (pending p)) 0 || reply

  unfoldable pub settle : BufferedSink A → Publication A → Bool → BufferedSink A × Published
  settle s p reply =
      if is_published p reply
      then (record s { degraded = false }, acked)
      else if leb (length (pending p)) s.capacity
      then (record s { buffer = pending p; degraded = true }, acked)
      else (record s { buffer = p.backlog; degraded = true }, backpressure (length p.backlog))

  -- What the broker has taken when the call ends.
  abbrev pub taken : Publication A → Bool → List A
  taken p reply = if is_published p reply then pending p else []

  unfoldable pub publish : BufferedSink A → List A → Bool → BufferedSink A × Published
  unfolding begin settle
  publish s messages reply = settle (begin s messages).0 (begin s messages).1 reply

  pub health : BufferedSink A → SinkHealth
  health s = record {
    broker = if s.degraded then Broker.degraded else up;
    buffered = length s.buffer;
  }
