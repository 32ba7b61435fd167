-- ===== src/Sdk/Client/Draining.antt =====
-- packages/sdk/src/client.ts: a flush ends, with an empty queue.
use toqar.Common.{
  ℕ, zero, suc, ◌+◌, ◌-◌, ◌*◌, ◌≤◌, ◌<◌, List, [], ◌∷◌, ◌++◌, ◌≡◌, refl, ap, ◌∙◌, length, take,
  drop, arith,
}
use toqar.Json.{Value}
use toqar.Sdk.Client.{
  ok_response, error_response, network_error, Options, Host, Client, enqueue_all, posted,
  deliver_from, deliver, flush_round, flush, noted, settled, responded, delivery_error, warn,
}

-- The queue is as it was, after a number of POSTs at most.
abbrev Calm : Client → ℕ → Client → Type 0
Calm c n d = (d.queue ≡ c.queue) × (d.posts ≤ c.posts + n)

length-drop_le : (n : ℕ) (xs : List Value) → length (drop n xs) ≤ length xs
length-drop_le zero xs = omega arith
length-drop_le (suc n) [] = omega arith
length-drop_le (suc n) (x ∷ xs) = omega (arith, length-drop_le n xs)

-- A batch of at least one event makes the queue shorter.
length-drop_lt : (n k : ℕ) (xs : List Value) → 0 < n → length xs ≤ suc k → length (drop n xs) ≤ k
length-drop_lt zero k xs h l = absurd (omega arith)
length-drop_lt (suc n) k [] h l = omega arith
length-drop_lt (suc n) k (x ∷ xs) h l = omega (arith, length-drop_le n xs)

nil_of_length : (xs : List Value) → length xs ≤ 0 → xs ≡ []
nil_of_length [] h = refl
nil_of_length (x ∷ xs) h = absurd (omega arith)

module _ (opts : Options) (host : Host) (quiet : (n : ℕ) → host.meanwhile n ≡ []) where
  posted_quiet : (c : Client) → posted opts host c ≡ record c { posts = suc c.posts }
  unfolding enqueue_all
  posted_quiet c = rw (quiet c.posts)

  noted-queue :
      (rs : List Value) (c : Client)
      → ((noted rs c).queue ≡ c.queue) × ((noted rs c).posts ≡ c.posts)
  noted-queue [] c = (refl, refl)
  noted-queue (r ∷ rs) c = (refl, refl)

  -- A delivery leaves the queue alone and POSTs once for each attempt at most.
  deliver_from-queue :
      (left : ℕ) (batch : List Value) (c : Client)
      → Calm c left (deliver_from opts host left batch c)
  unfolding deliver_from
  deliver_from-queue zero batch c = (refl, omega arith)
  deliver_from-queue (suc left) batch c =
      let same = posted_quiet c in
      let q = ap (λ (d : Client). d.queue) same in
      let n = ap (λ (d : Client). d.posts) same in
      elim (host.answer c.posts)
        as (λ a. Calm c (suc left) (elim a [
          | ok_response rejected ↦ settled batch rejected (posted opts host c)
          | error_response status ↦
              deliver_from opts host left batch
                (warn (responded status (opts.max_retries + 1 - left)) (posted opts host c))
          | network_error ↦
              deliver_from opts host left batch
                (warn (delivery_error (opts.max_retries + 1 - left)) (posted opts host c))
        ])) [
          | ok_response rejected ↦
              let (q', n') = noted-queue rejected (record (posted opts host c) {
                delivered = (posted opts host c).delivered ++ batch;
              }) in
              (q' ∙ q, omega (arith, n, n'))
          | error_response status ↦
              let (q', n') =
                deliver_from-queue left batch (warn (responded status _) (posted opts host c)) in
              (q' ∙ q, omega (arith, n, n'))
          | network_error ↦
              let (q', n') =
                deliver_from-queue left batch (warn (delivery_error _) (posted opts host c)) in
              (q' ∙ q, omega (arith, n, n'))
        ]

  round_calm :
      (c : Client)
      → ((flush_round opts host c).queue ≡ drop opts.max_batch c.queue)
        × ((flush_round opts host c).posts ≤ c.posts + (opts.max_retries + 1))
  unfolding flush_round deliver
  round_calm c =
      deliver_from-queue (opts.max_retries + 1) (take opts.max_batch c.queue)
        (record c { queue = drop opts.max_batch c.queue })

  abbrev Drained : Client → ℕ → Client → Type 0
  Drained c rounds d = (d.queue ≡ []) × (d.posts ≤ c.posts + rounds * (opts.max_retries + 1))

  -- The loop's test: nothing is done where nothing is queued.
  next_round :
      (rounds : ℕ) (c : Client) (q : List Value)
      → c.queue ≡ q
      → Drained c (suc rounds) (flush opts host rounds (flush_round opts host c))
      → Drained c
          (suc rounds)
          (elim q [ [] ↦ c | e ∷ es ↦ flush opts host rounds (flush_round opts host c) ])
  next_round rounds c [] nil d = (nil, omega arith)
  next_round rounds c (e ∷ es) some' d = d

  flush-empty :
      (rounds : ℕ) (c : Client)
      → 0 < opts.max_batch
      → length c.queue ≤ rounds
      → Drained c rounds (flush opts host rounds c)
  unfolding flush
  flush-empty zero c b h = (nil_of_length c.queue h, omega arith)
  flush-empty (suc rounds) c b h =
      let (q, n) = round_calm c in
      let shorter = length-drop_lt opts.max_batch rounds c.queue b h in
      let (empty, posts) =
        flush-empty rounds (flush_round opts host c) b (omega (arith, ap length q, shorter)) in
      let spread : suc rounds * (opts.max_retries + 1)
          ≡ rounds * (opts.max_retries + 1) + (opts.max_retries + 1) =
        grind arith in
      next_round rounds c c.queue refl (empty, omega (arith, n, posts, spread))

-- A flush ends: where batches hold at least one event and the host emits nothing meanwhile, as many
-- rounds as there are queued events leave the queue empty, whatever the collector answers, with at
-- most one POST for each attempt of each round.
pub flush-queue :
    (opts : Options) (host : Host) (c : Client)
    → ((n : ℕ) → host.meanwhile n ≡ [])
    → 0 < opts.max_batch
    → ((flush opts host (length c.queue) c).queue ≡ [])
      × ((flush opts host (length c.queue) c).posts
          ≤ c.posts + length c.queue * (opts.max_retries + 1))
flush-queue opts host c quiet b = flush-empty opts host quiet (length c.queue) c b (omega arith)
