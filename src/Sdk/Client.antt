-- ===== src/Sdk/Client.antt =====
-- packages/sdk/src/client.ts: the queue of `createToqarClient`, with delivery and flush. `accepted`,
-- `delivered` and `dropped` are the history of a run. A POST answers as the collector chooses, and
-- while it is awaited the host may emit: both are arguments, by the number of the POST.
pub mod Accounting
pub mod Conservation
pub mod Draining
mod Tests
use toqar.Common.{
  ℕ, zero, suc, ◌+◌, ◌-◌, String, Bool, true, false, Option, none, some, List, [], ◌∷◌, ◌++◌, ltb,
  not, ◌&&◌, if◌then◌else◌, length, take, drop,
}
use toqar.Json.{Value}

pub data Warning : Type 0 where
  invalid_dropped buffer_full : Warning
  -- The number of events that the collector rejected, the status and the attempt's number, ….
  collector_rejected : ℕ → Warning
  responded : (status attempt : ℕ) → Warning
  delivery_error : (attempt : ℕ) → Warning
  batch_dropped : (size attempts : ℕ) → Warning

pub data Answer : Type 0 where
  -- `res.ok`, with the rejected events that the body lists.
  ok_response : List Value → Answer
  error_response : ℕ → Answer
  network_error : Answer

pub record Options : Type 0 where
  pub disabled : Bool
  pub dev_validate : Bool
  pub max_batch : ℕ
  pub max_buffered : ℕ
  pub max_retries : ℕ

pub record Host : Type 0 where
  -- `toqarEventSchema.safeParse(payload).success`.
  pub is_valid : Value → Bool
  pub answer : ℕ → Answer
  pub meanwhile : ℕ → List Value

-- What a host does with a client; a flush is run for a number of rounds at most.
pub data Use : Type 0 where
  emit : Value → Use
  flush_up_to : (rounds : ℕ) → Use
  shut_down : (rounds : ℕ) → Use

pub record Client : Type 0 where
  pub queue : List Value
  pub timer : Bool
  pub warnings : List Warning
  pub posts : ℕ
  pub accepted : List Value
  pub delivered : List Value
  pub dropped : List Value

abbrev pub created : Client
created = record {
  queue = [];
  timer = false;
  warnings = [];
  posts = 0;
  accepted = [];
  delivered = [];
  dropped = [];
}

abbrev pub warn : Warning → Client → Client
warn w c = record c { warnings = c.warnings ++ w ∷ [] }

abbrev pub push : Value → Client → Client
push e c = record c { queue = c.queue ++ e ∷ []; accepted = c.accepted ++ e ∷ [] }

-- `if (queue.length > maxBuffered) queue.shift()`.
abbrev pub shift : Client → List Value → Client
shift c [] = c
shift c (oldest ∷ rest) =
    warn buffer_full (record c { queue = rest; dropped = c.dropped ++ oldest ∷ [] })

abbrev pub noted : List Value → Client → Client
noted [] c = c
noted (r ∷ rs) c = warn (collector_rejected (length (r ∷ rs))) c

abbrev pub settled : List Value → List Value → Client → Client
settled batch rejected c = noted rejected (record c { delivered = c.delivered ++ batch })

module _ (opts : Options) where
  abbrev pub trim : Client → Client
  trim c = if ltb opts.max_buffered (length c.queue) then shift c c.queue else c

  abbrev pub abandoned : List Value → Client → Client
  abandoned batch c =
      warn (batch_dropped (length batch) (opts.max_retries + 1))
        (record c { dropped = c.dropped ++ batch })

module _ (opts : Options) (host : Host) where
  unfoldable pub enqueue : Value → Client → Client
  enqueue e c =
      if opts.disabled
      then c
      else if opts.dev_validate && not (host.is_valid e)
      then warn invalid_dropped c
      else record (trim opts (push e c)) { timer = true }

  unfoldable pub enqueue_all : List Value → Client → Client
  enqueue_all [] c = c
  enqueue_all (e ∷ es) c = enqueue_all es (enqueue e c)

  -- The state when the next POST's answer arrives.
  abbrev pub posted : Client → Client
  posted c = record (enqueue_all (host.meanwhile c.posts) c) { posts = suc c.posts }

  -- The loop over the attempts, with the number of those that are left.
  unfoldable pub deliver_from : ℕ → List Value → Client → Client
  deliver_from zero batch c = abandoned opts batch c
  deliver_from (suc left) batch c = elim (host.answer c.posts) [
    | ok_response rejected ↦ settled batch rejected (posted c)
    | error_response status ↦
        deliver_from left batch (warn (responded status (opts.max_retries + 1 - left)) (posted c))
    | network_error ↦
        deliver_from left batch (warn (delivery_error (opts.max_retries + 1 - left)) (posted c))
  ]

  unfoldable pub deliver : List Value → Client → Client
  deliver batch c = deliver_from (opts.max_retries + 1) batch c

  -- `queue.splice(0, maxBatch)`, and the delivery of what it took.
  unfoldable pub flush_round : Client → Client
  flush_round c =
      deliver (take opts.max_batch c.queue) (record c { queue = drop opts.max_batch c.queue })

  -- `while (queue.length > 0)`, for a number of rounds at most.
  unfoldable pub flush : ℕ → Client → Client
  flush zero c = c
  flush (suc rounds) c = elim c.queue [ [] ↦ c | e ∷ es ↦ flush rounds (flush_round c) ]

  unfoldable pub shutdown : ℕ → Client → Client
  shutdown rounds c = flush rounds (record c { timer = false })

  unfoldable pub use_client : Use → Client → Client
  use_client (emit e) c = enqueue e c
  use_client (flush_up_to rounds) c = flush rounds c
  use_client (shut_down rounds) c = shutdown rounds c

  unfoldable pub use_all : List Use → Client → Client
  use_all [] c = c
  use_all (u ∷ us) c = use_all us (use_client u c)
