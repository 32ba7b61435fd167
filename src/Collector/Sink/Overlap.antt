-- ===== src/Collector/Sink/Overlap.antt =====
-- packages/collector/src/sink.ts: calls of `publish` that wait for the broker at the same time.
-- The intake routes are handlers of one event loop, so a call may begin while another waits.
use toqar.Common.{
  ◌≤◌, ◌<◌, Bool, false, List, [], ◌∷◌, ◌++◌, ◌≡◌, refl, length, append-nil, All, All-append, arith,
}
use toqar.Collector.Sink.{BufferedSink, Publication, begin, settle, taken}
use toqar.Collector.Sink.NoLoss.{promise}

pub record System (A : Type 0) : Type 0 where
  pub sink : BufferedSink A
  pub waiting : List (Publication A)
  pub broker : List A
  pub promised : List A

module _ {A : Type 0} where
  abbrev pub arrived : System A → List A → System A
  arrived s messages = record s {
    sink = (begin s.sink messages).0;
    waiting = s.waiting ++ (begin s.sink messages).1 ∷ [];
  }

  abbrev pub replied : System A → List (Publication A) → Publication A → Bool → System A
  replied s others p reply = record {
    sink = (settle s.sink p reply).0;
    waiting = others;
    broker = s.broker ++ taken p reply;
    promised = s.promised ++ promise (settle s.sink p reply).1 p.messages;
  }

  -- A request arrives, or the broker answers any of the calls that wait for it.
  pub data Step (s : System A) : System A → Type 0 where
    arrive : (messages : List A) → Step s (arrived s messages)
    reply :
        (front back : List (Publication A)) (p : Publication A) (r : Bool)
        → s.waiting ≡ front ++ p ∷ back
        → Step s (replied s (front ++ back) p r)

  pub data Reach (s : System A) : System A → Type 0 where
    here : Reach s s
    next : {t u : System A} → Reach s t → Step t u → Reach s u

  -- The buffer is within the capacity, and so is each backlog that a call holds.
  pub record IsBounded (s : System A) : Type 0 where
    pub fits : length s.sink.buffer ≤ s.sink.capacity
    pub held : All (λ p. length p.backlog ≤ s.sink.capacity) s.waiting

  All-middle :
      (P : Publication A → Type 0) (front back : List (Publication A)) (p : Publication A)
      → All P (front ++ p ∷ back)
      → All P (front ++ back) × P p
  All-middle P [] back p (h, hs) = (hs, h)
  All-middle P (q ∷ front) back p (h, hs) =
      let (rest, mine) = All-middle P front back p hs in ((h, rest), mine)

  settle_capacity :
      (s : BufferedSink A) (p : Publication A) (r : Bool) → (settle s p r).0.capacity ≡ s.capacity
  unfolding settle
  settle_capacity s p r = ground arith

  settle_fits :
      (s : BufferedSink A) (p : Publication A) (r : Bool)
      → length s.buffer ≤ s.capacity
      → length p.backlog ≤ s.capacity
      → length (settle s p r).0.buffer ≤ s.capacity
  unfolding settle
  settle_fits s p r h k = ground arith

  Step-IsBounded : {s t : System A} → Step s t → IsBounded s → IsBounded t
  unfolding begin
  Step-IsBounded {s} (arrive messages) v = record {
    fits = omega arith;
    held = All-append (λ p. length p.backlog ≤ s.sink.capacity) s.waiting _ v.held (v.fits, tt);
  }
  Step-IsBounded {s} (reply front back p r e) v =
      let (rest, mine) =
        All-middle (λ q. length q.backlog ≤ s.sink.capacity) front back p (rw e at v.held) in
      record {
        fits = rw (settle_capacity s.sink p r) (settle_fits s.sink p r v.fits mine);
        held = rw (settle_capacity s.sink p r) rest;
      }

  -- However calls overlap, the buffer stays within the capacity, and so does each backlog that a
  -- waiting call holds.
  pub Reach-IsBounded : (s : System A) {t : System A} → Reach s t → IsBounded s → IsBounded t
  Reach-IsBounded s here v = v
  Reach-IsBounded s (next r st) v = Step-IsBounded st (Reach-IsBounded s r v)

  -- The state after two requests arrived together and the broker failed both, the first one first.
  pub both_failed : System A → List A → List A → System A
  both_failed s ms ns = replied (replied met (second ∷ []) first false) [] second false
    where
      met : System A
      met = arrived (arrived s ms) ns

      first : Publication A
      first = (begin s.sink ms).1

      second : Publication A
      second = record { backlog = []; messages = ns }

  pub record IsLost (s t : System A) (ms ns : List A) : Type 0 where
    pub run : Reach s t
    pub done : t.waiting ≡ []
    pub promised : t.promised ≡ (s.promised ++ ms) ++ ns
    pub broker : t.broker ≡ s.broker
    pub left : t.sink.buffer ≡ ns

  both_failed-Reach :
      (s : System A) (ms ns : List A) → s.waiting ≡ [] → Reach s (both_failed s ms ns)
  unfolding both_failed begin
  both_failed-Reach s ms ns e =
      next (next (next (next here (arrive ms)) (arrive ns)) (reply [] _ _ false (rw e)))
        (reply [] [] _ false refl)

  -- From any state with no call waiting: two requests that arrive together, each pending list not
  -- empty and within the capacity, and that the broker fails in turn, are both accepted, and end with
  -- the broker unchanged and only the second request in the buffer; the backlog and the first are lost.
  pub overlap-IsLost :
      (s : System A) (ms ns : List A)
      → s.waiting ≡ []
      → 0 < length (s.sink.buffer ++ ms)
      → length (s.sink.buffer ++ ms) ≤ s.sink.capacity
      → 0 < length ns
      → length ns ≤ s.sink.capacity
      → IsLost s (both_failed s ms ns) ms ns
  unfolding both_failed begin settle
  overlap-IsLost s ms ns e some_first first_fits some_second second_fits = record {
    run = both_failed-Reach s ms ns e;
    done = refl;
    promised = ground arith;
    broker = ground (arith, append-nil s.broker);
    left = ground arith;
  }
