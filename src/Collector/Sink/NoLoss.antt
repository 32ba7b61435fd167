-- ===== src/Collector/Sink/NoLoss.antt =====
-- packages/collector/src/sink.ts: calls of `publish` that follow one another.
use toqar.Common.{
  ℕ, ◌≤◌, ◌<◌, ◌↔◌, Bool, false, List, [], ◌∷◌, ◌++◌, ◌≡◌, refl, length, append-nil, append_assoc,
  arith,
}
use toqar.Collector.Sink.{BufferedSink, Published, acked, backpressure, taken, publish}

-- The sink with the two logs that its promise speaks of: what the broker has taken, and what the
-- callers were told is accepted.
pub record Served (A : Type 0) : Type 0 where
  pub sink : BufferedSink A
  pub broker : List A
  pub promised : List A

module _ {A : Type 0} where
  abbrev pub promise : Published → List A → List A
  promise acked messages = messages
  promise (backpressure n) messages = []

  -- One request: a publication, with the broker's reply.
  unfoldable pub serve : Served A → List A × Bool → Served A
  unfolding publish
  serve s (messages, reply) = record {
    sink = (publish s.sink messages reply).0;
    broker = s.broker ++ taken (record { backlog = s.sink.buffer; messages = messages }) reply;
    promised = s.promised ++ promise (publish s.sink messages reply).1 messages;
  }

  unfoldable pub serve_all : Served A → List (List A × Bool) → Served A
  serve_all s [] = s
  serve_all s (r ∷ rs) = serve_all (serve s r) rs

  -- Every accepted message is with the broker or in the buffer, once and in order, and the buffer
  -- is within its capacity.
  pub record IsHonest (s : Served A) : Type 0 where
    pub kept : s.broker ++ s.sink.buffer ≡ s.promised
    pub fits : length s.sink.buffer ≤ s.sink.capacity

  pub serve-IsHonest :
      (s : Served A) (messages : List A) (reply : Bool)
      → IsHonest s
      → IsHonest (serve s (messages, reply))
  unfolding serve
  serve-IsHonest s messages reply v = ground (
    arith,
    append_assoc s.broker s.sink.buffer messages,
    append-nil s.broker,
    append-nil s.promised,
    append-nil (s.broker ++ (s.sink.buffer ++ messages)),
  )

  serve_all-IsHonest :
      (s : Served A) (rs : List (List A × Bool)) → IsHonest s → IsHonest (serve_all s rs)
  unfolding serve_all
  serve_all-IsHonest s [] v = v
  serve_all-IsHonest s ((ms, reply) ∷ rs) v =
      serve_all-IsHonest (serve s (ms, reply)) rs (serve-IsHonest s ms reply v)

  abbrev pub idle : ℕ → Served A
  idle capacity = record {
    sink = record { buffer = []; degraded = false; capacity = capacity };
    broker = [];
    promised = [];
  }

  -- After any sequence of requests served one after another from an empty sink, with any replies of
  -- the broker: what the broker took, followed by the buffer, is exactly what was accepted, in order;
  -- and the buffer is within its capacity.
  pub served-IsHonest :
      (capacity : ℕ) (rs : List (List A × Bool)) → IsHonest (serve_all (idle capacity) rs)
  served-IsHonest capacity rs =
      serve_all-IsHonest (idle capacity) rs (record { kept = refl; fits = omega arith })

  -- A call is refused, with the size of the buffer, exactly when the broker fails and the backlog with
  -- the new messages exceeds the capacity.
  pub publish-refused_iff :
      (s : BufferedSink A) (messages : List A) (reply : Bool)
      → ((publish s messages reply).1 ≡ backpressure (length s.buffer))
        ↔ ((reply ≡ false) × (s.capacity < length (s.buffer ++ messages)))
  unfolding publish
  publish-refused_iff s messages reply = ground arith

  pub publish-refused_buffer :
      (s : BufferedSink A) (messages : List A) (reply : Bool) (n : ℕ)
      → (publish s messages reply).1 ≡ backpressure n
      → ((publish s messages reply).0.buffer ≡ s.buffer) × (n ≡ length s.buffer)
  unfolding publish
  publish-refused_buffer s messages reply n h = ground arith
