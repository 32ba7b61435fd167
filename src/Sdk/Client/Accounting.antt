-- ===== src/Sdk/Client/Accounting.antt =====
-- packages/sdk/src/client.ts: where each accepted event is, and what warnings, emits and the ends of a
-- delivery do to that account.
use toqar.Common.{
  ℕ, suc, ◌+◌, ◌≤◌, Bool, true, List, [], ◌∷◌, ◌++◌, ◌≡◌, refl, ltb, not, ◌&&◌, if◌then◌else◌,
  length, length-append, arith, Bool-cases, inl, inr,
}
use toqar.Json.{Value}
use toqar.Sdk.Client.{
  Warning, invalid_dropped, buffer_full, batch_dropped, Options, Host, Client, created, warn, push,
  shift, trim, enqueue, enqueue_all, abandoned, posted,
}

-- How many events of a list pass a test.
unfoldable pub count : (Value → Bool) → List Value → ℕ
count p [] = 0
count p (e ∷ es) = (if p e then 1 else 0) + count p es

pub count-append :
    (p : Value → Bool) (xs ys : List Value) → count p (xs ++ ys) ≡ count p xs + count p ys
unfolding count
count-append p [] ys = omega arith
count-append p (x ∷ xs) ys = omega (arith, count-append p xs ys)

-- How many events the warnings say were dropped after they were accepted.
abbrev pub announced : Warning → ℕ
announced buffer_full = 1
announced (batch_dropped size attempts) = size
announced w = 0

unfoldable pub all_announced : List Warning → ℕ
all_announced [] = 0
all_announced (w ∷ ws) = announced w + all_announced ws

all_announced-append :
    (xs ys : List Warning) → all_announced (xs ++ ys) ≡ all_announced xs + all_announced ys
unfolding all_announced
all_announced-append [] ys = omega arith
all_announced-append (x ∷ xs) ys = omega (arith, all_announced-append xs ys)

-- With a batch in flight: each accepted event is queued, in flight, delivered or dropped, as often as
-- it was accepted; the warnings announce the drops; the queue is within its bound.
pub record IsConserved (opts : Options) (flight : List Value) (c : Client) : Type 0 where
  pub conserved :
      (p : Value → Bool)
      → count p c.accepted
        ≡ count p c.queue + count p flight + count p c.delivered + count p c.dropped
  pub honest : all_announced c.warnings ≡ length c.dropped
  pub bounded : length c.queue ≤ opts.max_buffered

pub created-IsConserved : (opts : Options) → IsConserved opts [] created
unfolding count all_announced
created-IsConserved opts = record {
  conserved = λ p. omega arith;
  honest = refl;
  bounded = omega arith;
}

module _ (opts : Options) (host : Host) (flight : List Value) where
  pub warned-IsConserved :
      (w : Warning) (c : Client)
      → announced w ≡ 0
      → IsConserved opts flight c
      → IsConserved opts flight (warn w c)
  unfolding all_announced
  warned-IsConserved w c h v = record {
    conserved = v.conserved;
    honest = omega (arith, all_announced-append c.warnings (w ∷ []), v.honest);
    bounded = v.bounded;
  }

  -- A client whose queue has grown by one, before it is cut to its bound.
  record IsGrown (c : Client) : Type 0 where
    pub conserved :
        (p : Value → Bool)
        → count p c.accepted
          ≡ count p c.queue + count p flight + count p c.delivered + count p c.dropped
    pub honest : all_announced c.warnings ≡ length c.dropped
    pub near : length c.queue ≤ suc opts.max_buffered

  shift-IsConserved :
      (c : Client) (q : List Value)
      → IsGrown (record c { queue = q })
      → ltb opts.max_buffered (length q) ≡ true
      → IsConserved opts flight (shift (record c { queue = q }) q)
  unfolding count all_announced
  shift-IsConserved c [] g over = absurd (ground arith)
  shift-IsConserved c (oldest ∷ rest) g over = record {
    conserved = λ p. omega (arith, g.conserved p, count-append p c.dropped (oldest ∷ []));
    honest = omega (
      arith,
      g.honest,
      all_announced-append c.warnings (buffer_full ∷ []),
      length-append c.dropped (oldest ∷ []),
    );
    bounded = omega (arith, g.near);
  }

  trim-IsConserved : (c : Client) → IsGrown c → IsConserved opts flight (trim opts c)
  trim-IsConserved c g = elim (Bool-cases (ltb opts.max_buffered (length c.queue))) [
    | inl over ↦ rw over (shift-IsConserved c c.queue g over)
    | inr fits ↦
        rw fits
          (record { conserved = g.conserved; honest = g.honest; bounded = ground (arith, fits) })
  ]

  push-IsGrown : (e : Value) (c : Client) → IsConserved opts flight c → IsGrown (push e c)
  unfolding count
  push-IsGrown e c v = record {
    conserved = λ p.
        omega (
          arith,
          v.conserved p,
          count-append p c.accepted (e ∷ []),
          count-append p c.queue (e ∷ []),
        );
    honest = v.honest;
    near = omega (arith, v.bounded, length-append c.queue (e ∷ []));
  }

  pub enqueue-IsConserved :
      (e : Value) (c : Client)
      → IsConserved opts flight c
      → IsConserved opts flight (enqueue opts host e c)
  unfolding enqueue
  enqueue-IsConserved e c v = elim (Bool-cases opts.disabled) [
    | inl off ↦ simp off v
    | inr on ↦ simp on (elim (Bool-cases (opts.dev_validate && not (host.is_valid e))) [
      | inl bad ↦ rw bad (warned-IsConserved invalid_dropped c refl v)
      | inr good ↦ rw good (
          let w = trim-IsConserved (push e c) (push-IsGrown e c v) in
          record { conserved = w.conserved; honest = w.honest; bounded = w.bounded })
    ])
  ]

  enqueue_all-IsConserved :
      (es : List Value) (c : Client)
      → IsConserved opts flight c
      → IsConserved opts flight (enqueue_all opts host es c)
  unfolding enqueue_all
  enqueue_all-IsConserved [] c v = v
  enqueue_all-IsConserved (e ∷ es) c v =
      enqueue_all-IsConserved es (enqueue opts host e c) (enqueue-IsConserved e c v)

  pub posted-IsConserved :
      (c : Client) → IsConserved opts flight c → IsConserved opts flight (posted opts host c)
  posted-IsConserved c v =
      let w = enqueue_all-IsConserved (host.meanwhile c.posts) c v in
      record { conserved = w.conserved; honest = w.honest; bounded = w.bounded }

  pub delivered-IsConserved :
      (c : Client)
      → IsConserved opts flight c
      → IsConserved opts [] (record c { delivered = c.delivered ++ flight })
  unfolding count
  delivered-IsConserved c v = record {
    conserved = λ p. omega (arith, v.conserved p, count-append p c.delivered flight);
    honest = v.honest;
    bounded = v.bounded;
  }

  pub abandoned-IsConserved :
      (c : Client) → IsConserved opts flight c → IsConserved opts [] (abandoned opts flight c)
  unfolding count all_announced
  abandoned-IsConserved c v = record {
    conserved = λ p. omega (arith, v.conserved p, count-append p c.dropped flight);
    honest = omega (
      arith,
      v.honest,
      length-append c.dropped flight,
      all_announced-append c.warnings (batch_dropped (length flight) (opts.max_retries + 1) ∷ []),
    );
    bounded = v.bounded;
  }
