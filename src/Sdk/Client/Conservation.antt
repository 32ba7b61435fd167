-- ===== src/Sdk/Client/Conservation.antt =====
-- packages/sdk/src/client.ts: no event is lost in silence, and the queue stays within its bound.
use toqar.Common.{
  ℕ, zero, suc, ◌+◌, ◌-◌, false, List, [], ◌∷◌, refl, ap, length, length-append, take, drop,
  take-append-drop, arith,
}
use toqar.Json.{Value}
use toqar.Sdk.Client.{
  collector_rejected, responded, delivery_error, ok_response, error_response, network_error,
  Options, Host, Client, created, warn, noted, settled, posted, deliver_from, deliver, flush_round,
  flush, shutdown, Use, emit, flush_up_to, shut_down, use_client, use_all,
}
use toqar.Sdk.Client.Accounting.{
  count, IsConserved, created-IsConserved, warned-IsConserved, enqueue-IsConserved,
  posted-IsConserved, delivered-IsConserved, abandoned-IsConserved, count-append,
}

module _ (opts : Options) (host : Host) where
  noted-IsConserved :
      (rs : List Value) (c : Client) → IsConserved opts [] c → IsConserved opts [] (noted rs c)
  noted-IsConserved [] c v = v
  noted-IsConserved (r ∷ rs) c v =
      warned-IsConserved opts host [] (collector_rejected (length (r ∷ rs))) c refl v

  deliver_from-IsConserved :
      (left : ℕ) (batch : List Value) (c : Client)
      → IsConserved opts batch c
      → IsConserved opts [] (deliver_from opts host left batch c)
  unfolding deliver_from
  deliver_from-IsConserved zero batch c v = abandoned-IsConserved opts host batch c v
  deliver_from-IsConserved (suc left) batch c v =
      elim (host.answer c.posts)
        as (λ a. IsConserved opts [] (elim a [
          | ok_response rejected ↦ settled batch rejected (posted opts host c)
          | error_response status ↦
              deliver_from opts host left batch
                (warn (responded status (opts.max_retries + 1 - left)) (posted opts host c))
          | network_error ↦
              deliver_from opts host left batch
                (warn (delivery_error (opts.max_retries + 1 - left)) (posted opts host c))
        ])) [
          | ok_response rejected ↦ noted-IsConserved rejected _ (
              delivered-IsConserved opts host batch (posted opts host c)
                (posted-IsConserved opts host batch c v))
          | error_response status ↦ deliver_from-IsConserved left batch _ (
              warned-IsConserved opts host batch (responded status _) _ refl
                (posted-IsConserved opts host batch c v))
          | network_error ↦ deliver_from-IsConserved left batch _ (
              warned-IsConserved opts host batch (delivery_error _) _ refl
                (posted-IsConserved opts host batch c v))
        ]

  flush_round-IsConserved :
      (c : Client) → IsConserved opts [] c → IsConserved opts [] (flush_round opts host c)
  unfolding flush_round deliver count
  flush_round-IsConserved c v =
      let whole = take-append-drop opts.max_batch c.queue in
      deliver_from-IsConserved (opts.max_retries + 1) (take opts.max_batch c.queue)
        (record c { queue = drop opts.max_batch c.queue })
        (record {
          conserved = λ p. omega (
            arith,
            v.conserved p,
            ap (count p) whole,
            count-append p (take opts.max_batch c.queue) (drop opts.max_batch c.queue),
          );
          honest = v.honest;
          bounded = omega (
            arith,
            v.bounded,
            ap length whole,
            length-append (take opts.max_batch c.queue) (drop opts.max_batch c.queue),
          );
        })

  flush-IsConserved :
      (rounds : ℕ) (c : Client)
      → IsConserved opts [] c
      → IsConserved opts [] (flush opts host rounds c)
  unfolding flush
  flush-IsConserved zero c v = v
  flush-IsConserved (suc rounds) c v =
      elim c.queue
        as (λ q.
          IsConserved opts []
            (elim q [ [] ↦ c | e ∷ es ↦ flush opts host rounds (flush_round opts host c) ])) [
              | [] ↦ v
              | e ∷ es ↦
                  flush-IsConserved rounds (flush_round opts host c) (flush_round-IsConserved c v)
            ]

  use_client-IsConserved :
      (u : Use) (c : Client)
      → IsConserved opts [] c
      → IsConserved opts [] (use_client opts host u c)
  unfolding use_client shutdown
  use_client-IsConserved (emit e) c v = enqueue-IsConserved opts host [] e c v
  use_client-IsConserved (flush_up_to rounds) c v = flush-IsConserved rounds c v
  use_client-IsConserved (shut_down rounds) c v =
      flush-IsConserved rounds (record c { timer = false })
        (record { conserved = v.conserved; honest = v.honest; bounded = v.bounded })

  use_all-from :
      (us : List Use) (c : Client)
      → IsConserved opts [] c
      → IsConserved opts [] (use_all opts host us c)
  unfolding use_all
  use_all-from [] c v = v
  use_all-from (u ∷ us) c v =
      use_all-from us (use_client opts host u c) (use_client-IsConserved u c v)

-- After any sequence of emits, flushes and shutdowns of a new client, whatever the collector answers
-- and whatever the host emits while a POST is awaited: each event that was accepted is in the queue,
-- delivered or dropped, together as often as it was accepted; the warnings announce exactly as many
-- drops as there were; and the queue holds no more events than its bound.
pub use_all-IsConserved :
    (opts : Options) (host : Host) (us : List Use)
    → IsConserved opts [] (use_all opts host us created)
use_all-IsConserved opts host us = use_all-from opts host us created (created-IsConserved opts)
