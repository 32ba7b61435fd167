-- ===== src/Collector/Sink/Delivery.antt =====
-- packages/collector/src/sink.ts: what was accepted reaches the broker.
use toqar.Common.{
  ℕ, Bool, true, false, List, [], ◌∷◌, ◌++◌, ◌≡◌, sym, ap, ◌∙◌, append-nil, append_assoc, arith,
}
use toqar.Collector.Sink.{publish, taken}
use toqar.Collector.Sink.NoLoss.{
  Served, promise, serve, serve_all, IsHonest, serve-IsHonest, idle, served-IsHonest,
}

module _ {A : Type 0} where
  -- The broker takes what one of the requests hands over.
  abbrev pub some_taken : List (List A × Bool) → Bool
  some_taken [] = false
  some_taken ((messages, true) ∷ rs) = true
  some_taken ((messages, false) ∷ rs) = some_taken rs

  serve_all-broker :
      (s : Served A) (rs : List (List A × Bool))
      → (rest : List A) × ((serve_all s rs).broker ≡ s.broker ++ rest)
  unfolding serve_all serve
  serve_all-broker s [] = ([], sym (append-nil s.broker))
  serve_all-broker s ((messages, reply) ∷ rs) =
      let more = taken (record { backlog = s.sink.buffer; messages = messages }) reply in
      let (rest, e) = serve_all-broker (serve s (messages, reply)) rs in
      (more ++ rest, e ∙ append_assoc s.broker more rest)

  serve-taken :
      (s : Served A) (messages : List A)
      → IsHonest s
      → (serve s (messages, true)).broker ≡ s.promised ++ messages
  unfolding serve publish
  serve-taken s messages v = ground (arith, append_assoc s.broker s.sink.buffer messages, v.kept)

  honest_delivered :
      (s : Served A) (rs : List (List A × Bool))
      → IsHonest s
      → some_taken rs ≡ true
      → (rest : List A) × ((serve_all s rs).broker ≡ s.promised ++ rest)
  unfolding serve_all serve
  honest_delivered s [] v h = cc
  honest_delivered s ((messages, true) ∷ rs) v h =
      let (rest, e) = serve_all-broker (serve s (messages, true)) rs in
      (
        messages ++ rest,
        e
            ∙ ap (λ taken'. taken' ++ rest) (serve-taken s messages v)
            ∙ append_assoc s.promised messages rest,
      )
  honest_delivered s ((messages, false) ∷ rs) v h =
      let more = promise (publish s.sink messages false).1 messages in
      let (rest, e) =
        honest_delivered (serve s (messages, false)) rs (serve-IsHonest s messages false v) h in
      (more ++ rest, e ∙ append_assoc s.promised more rest)

  -- Of requests served one after another from an empty sink: whatever was accepted at some point, the
  -- broker has, in the order in which it was accepted and before all else, once it has taken what any
  -- one later request hands over; whatever it answers to the others, and whatever those bring.
  pub served-delivered :
      (capacity : ℕ) (earlier later : List (List A × Bool))
      → some_taken later ≡ true
      → (rest : List A) × ((serve_all (serve_all (idle capacity) earlier) later).broker
          ≡ (serve_all (idle capacity) earlier).promised ++ rest)
  served-delivered capacity earlier later h =
      honest_delivered (serve_all (idle capacity) earlier) later (served-IsHonest capacity earlier)
        h
