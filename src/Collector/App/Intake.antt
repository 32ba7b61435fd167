-- ===== src/Collector/App/Intake.antt =====
-- packages/collector/src/app.ts: the bookkeeping of `/v1/events`.
use toqar.Common.{
  ℕ, suc, ◌+◌, ◌≡◌, refl, ◌∙◌, false, String, List, [], ◌∷◌, ◌==◌, if◌then◌else◌, length,
  length-append, arith, map_get, map_get-map_set, eq_refl, Bool-cases, inl, inr,
}
use toqar.Json.{Value}
use toqar.Registry.Shapes.{Formats}
use toqar.Registry.Events.{Parsed, accepted, rejected}
use toqar.Collector.Redact.{Piece, counted}
use toqar.Collector.Redact.Shape.{total-counted}
use toqar.Collector.App.{
  Context, Counters, Gathered, or_none, record_rejection, rejections_for, reason_class, parse_any,
  gather_parsed, gather,
}

pub rejections_for-record_rejection :
    (t u reason : String) (counters : Counters)
    → rejections_for u (record_rejection t reason counters)
      ≡ (if t == u then rejections_for t counters + 1 else rejections_for u counters)
unfolding rejections_for record_rejection
rejections_for-record_rejection t u reason counters = elim (Bool-cases (t == u)) [
  | inl same ↦
      rw (map_get-map_set counters t u (counted reason 1 (or_none (map_get counters t))))
        (rw same (total-counted reason 1 (or_none (map_get counters t))))
  | inr other ↦
      rw (map_get-map_set counters t u (counted reason 1 (or_none (map_get counters t))))
        (rw other refl)
]

module _ (formats : Formats) (show : Value → String) (cut : String → String → List Piece)
    (c : Context) where
  -- What a stretch of the loop does to what has been gathered, over `n` events.
  pub record Balances (n : ℕ) (g g' : Gathered) : Type 0 where
    pub every : length g'.accepted + length g'.rejected ≡ length g.accepted + length g.rejected + n
    pub counted_all :
        rejections_for c.tenant g'.counters + length g.rejected
        ≡ rejections_for c.tenant g.counters + length g'.rejected
    pub others :
        (u : String)
        → (c.tenant == u) ≡ false
        → rejections_for u g'.counters ≡ rejections_for u g.counters

  gather_parsed-Balances :
      (index : ℕ) (p : Parsed) (g : Gathered)
      → Balances 1 g (gather_parsed formats show cut c index p g)
  gather_parsed-Balances index (accepted v) g = elim (Bool-cases c.settings.redact) [
    | inl on ↦ rw on (record {
      every = omega (arith, length-append g.accepted);
      counted_all = refl;
      others = λ u h. refl;
    })
    | inr off ↦ rw off (record {
      every = omega (arith, length-append g.accepted);
      counted_all = refl;
      others = λ u h. refl;
    })
  ]
  gather_parsed-Balances index (rejected is) g = record {
    every = omega (arith, length-append g.rejected);
    counted_all =
        let r = rejections_for-record_rejection c.tenant c.tenant (reason_class is) g.counters in
        let r' = rw (eq_refl c.tenant) at r in omega (arith, r', length-append g.rejected);
    others = λ u h.
        let r = rejections_for-record_rejection c.tenant u (reason_class is) g.counters in
        rw h at r;
  }

  Balances-trans :
      (n : ℕ) (g h k : Gathered) → Balances 1 g h → Balances n h k → Balances (suc n) g k
  Balances-trans n g h k a b = record {
    every = omega (arith, a.every, b.every);
    counted_all = omega (arith, a.counted_all, b.counted_all);
    others = λ u ne. b.others u ne ∙ a.others u ne;
  }

  pub gather-Balances :
      (index : ℕ) (events : List Value) (g : Gathered)
      → Balances (length events) g (gather formats show cut c index events g)
  unfolding gather
  gather-Balances index [] g = record {
    every = omega arith;
    counted_all = refl;
    others = λ u h. refl;
  }
  gather-Balances index (v ∷ vs) g =
      let step = gather_parsed formats show cut c index (parse_any formats show cut v) g in
      Balances-trans (length vs) g step (gather formats show cut c (suc index) vs step)
        (gather_parsed-Balances index (parse_any formats show cut v) g)
        (gather-Balances (suc index) vs step)
