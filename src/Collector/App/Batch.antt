-- ===== src/Collector/App/Batch.antt =====
-- packages/collector/src/app.ts: what the loop of `/v1/events` hands over and what it rejects, by the events
-- of the body.
use mathlib.Core.Path.{subst}
use toqar.Common.{
  sym, ◌++◌, append-nil, append_assoc, ℕ, suc, ◌≡◌, refl, ap, ◌∙◌, String, List, [], ◌∷◌,
  if◌then◌else◌, includes, Bool-cases, inl, inr, All,
}
use toqar.Json.{Value, obj, Fields}
use toqar.Registry.Shapes.{Formats, Issue, object, issues}
use toqar.Registry.Events.{toqar_event_names, Parsed, accepted, rejected, safe_parsed}
use toqar.Registry.Events.Conformance.{parse_event-obj}
use toqar.Collector.Redact.{Piece, redact_event}
use toqar.Collector.App.{
  Rejection, gather_accepted, Context, Gathered, enriched, product_shape, passed_through, name_of,
  parse_product, parse_any, gather_parsed, gather,
}
use toqar.Collector.App.Tags.{Carries, Handed, HandedOver, Clear, enriched-Handed, enriched-Carries}

accepted-obj :
    (fs : Fields) (e : Value) → accepted (obj fs) ≡ accepted e → (gs : Fields) × (e ≡ obj gs)
accepted-obj fs e h = (fs, cc)

module _ (formats : Formats) (show : Value → String) (cut : String → String → List Piece)
    (c : Context) where
  safe_parsed-obj :
      (is : List Issue) (v e : Value)
      → safe_parsed is (passed_through v) ≡ accepted e
      → issues formats (object product_shape) [] v ≡ is
      → (gs : Fields) × (e ≡ obj gs)
  unfolding issues
  safe_parsed-obj [] (obj fs) e h k = accepted-obj _ e h
  safe_parsed-obj [] v e h k = cc
  safe_parsed-obj (i ∷ is) v e h k = cc

  parse_any-obj :
      (v e : Value) → parse_any formats show cut v ≡ accepted e → (gs : Fields) × (e ≡ obj gs)
  unfolding parse_any parse_product
  parse_any-obj v e h = elim (Bool-cases (includes toqar_event_names (name_of show v))) [
    | inl core ↦ parse_event-obj formats v e (rw core at h)
    | inr product ↦
        safe_parsed-obj (issues formats (object product_shape) [] v) v e (rw product at h) refl
  ]

  -- The events of a body that their schema takes, as it returns them.
  abbrev pub kept_with : Parsed → List Value → List Value
  kept_with (accepted e) es = e ∷ es
  kept_with (rejected is) es = es

  abbrev pub kept_events : List Value → List Value
  kept_events [] = []
  kept_events (v ∷ vs) = kept_with (parse_any formats show cut v) (kept_events vs)

  -- The others, by their index in the body, each with its issues.
  abbrev pub refused_with : ℕ → Parsed → List Rejection → List Rejection
  refused_with index (accepted e) rs = rs
  refused_with index (rejected is) rs = record { index = index; reasons = is } ∷ rs

  abbrev pub refused_events : ℕ → List Value → List Rejection
  refused_events index [] = []
  refused_events index (v ∷ vs) =
      refused_with index (parse_any formats show cut v) (refused_events (suc index) vs)

  -- What a stretch of the loop adds to what has been gathered.
  pub record Adds (es : List Value) (rs : List Rejection) (g g' : Gathered) : Type 0 where
    pub batch : List Value
    pub taken : g'.accepted ≡ g.accepted ++ batch
    pub handed : HandedOver cut c es batch
    pub carried : Clear cut c.settings.residency → All (Carries cut c) batch
    pub refused : g'.rejected ≡ g.rejected ++ rs

  abbrev handed_event : Value → Value
  handed_event e = if c.settings.redact then (redact_event cut (enriched c e)).0 else enriched c e

  gather_accepted-adds :
      (e : Value) (g : Gathered)
      → ((gather_accepted formats show cut c e g).accepted ≡ g.accepted ++ handed_event e ∷ [])
        × ((gather_accepted formats show cut c e g).rejected ≡ g.rejected)
  gather_accepted-adds e g = elim (Bool-cases c.settings.redact) [
    | inl on ↦ simp on (refl, refl)
    | inr off ↦ simp off (refl, refl)
  ]

  gather_parsed-Adds :
      (index : ℕ) (p : Parsed) (es : List Value) (rs : List Rejection) (g g' : Gathered)
      → ((e : Value) → p ≡ accepted e → (gs : Fields) × (e ≡ obj gs))
      → Adds es rs (gather_parsed formats show cut c index p g) g'
      → Adds (kept_with p es) (refused_with index p rs) g g'
  gather_parsed-Adds index (accepted e) es rs g g' objects later =
      let (gs, shape) = objects e refl in
      let (one, none_refused) = gather_accepted-adds e g in
      record {
        batch = handed_event e ∷ later.batch;
        taken =
            later.taken
            ∙ ap (λ xs. xs ++ later.batch) one
            ∙ append_assoc g.accepted (handed_event e ∷ []) later.batch;
        handed = (
          subst (λ v. Handed cut c v (handed_event v)) (sym shape)
              (enriched-Handed cut c gs (handed_event (obj gs)) refl),
          later.handed,
        );
        carried = λ clear. (
          subst (λ v. Carries cut c (handed_event v)) (sym shape) (enriched-Carries cut c gs clear),
          later.carried clear,
        );
        refused = later.refused ∙ ap (λ xs. xs ++ rs) none_refused;
      }
  gather_parsed-Adds index (rejected is) es rs g g' objects later = record {
    batch = later.batch;
    taken = later.taken;
    handed = later.handed;
    carried = later.carried;
    refused =
        later.refused ∙ append_assoc g.rejected (record { index = index; reasons = is } ∷ []) rs;
  }

  -- The loop hands over the events that are kept, marked, and rejects the others.
  pub gather-Adds :
      (index : ℕ) (events : List Value) (g : Gathered)
      → Adds
          (kept_events events)
          (refused_events index events)
          g
          (gather formats show cut c index events g)
  unfolding gather
  gather-Adds index [] g = record {
    batch = [];
    taken = sym (append-nil g.accepted);
    handed = tt;
    carried = λ clear. tt;
    refused = sym (append-nil g.rejected);
  }
  gather-Adds index (v ∷ vs) g =
      let step = gather_parsed formats show cut c index (parse_any formats show cut v) g in
      gather_parsed-Adds index (parse_any formats show cut v) (kept_events vs)
        (refused_events (suc index) vs) g (gather formats show cut c (suc index) vs step)
        (parse_any-obj v) (gather-Adds (suc index) vs step)
