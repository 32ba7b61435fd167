-- ===== src/Registry/Store/Findings/Citing.antt =====
-- packages/registry-service/src/store.ts and packages/registry/src/finding.ts: which drafts are
-- published, and what becomes of the others.
use Prim.Native.String.{◌++◌}
use mathlib.Core.Path.{subst}
use toqar.Common.{
  ℕ, String, Bool, true, false, Option, some, List, [], ◌∷◌, ◌≡◌, ◌≢◌, refl, ◌⊎◌, inl, inr,
  Bool-cases, Option-cases, All, arith,
}
use toqar.Common.Texts.{slice_to, join, has_part}
use toqar.Json.{Value, null, str, obj, field, end}
use toqar.Registry.Findings.{
  FindingMetric, Finding, parse_given, finding_json, prose_of, is_cited, preceding, uncited_of,
  validate_finding_citations,
}
use toqar.Registry.Table.{insert}
use toqar.Registry.Store.{Db, Operation, Result, ok, err, failure, audit}
use toqar.Registry.Store.Findings.{
  PublishResult, published, rejected, draft_of, stores_given, publish_finding,
}

-- Some registered value contains the claim, or is contained in it.
abbrev pub Cited : List FindingMetric → String → Type 0
Cited [] token = ⊥
Cited (m ∷ ms) token =
    ((has_part m.value token ≡ true) ⊎ (has_part token m.value ≡ true)) ⊎ Cited ms token

is_cited-Cited :
    (ms : List FindingMetric) (token : String) → is_cited ms token ≡ true → Cited ms token
is_cited-Cited [] token e = cc
is_cited-Cited (m ∷ ms) token e = elim (Bool-cases (has_part m.value token)) [
  | inl within ↦ inl (inl within)
  | inr outside ↦ elim (Bool-cases (has_part token m.value)) [
    | inl around ↦ inl (inr around)
    | inr apart ↦ inr (is_cited-Cited ms token (rw outside at (rw apart at e)))
  ]
]

Cited-is_cited :
    (ms : List FindingMetric) (token : String) → Cited ms token → is_cited ms token ≡ true
Cited-is_cited [] token c = elim c [ ]
Cited-is_cited (m ∷ ms) token (inl (inl within)) = rw within refl
Cited-is_cited (m ∷ ms) token (inl (inr around)) = ground (arith, around)
Cited-is_cited (m ∷ ms) token (inr later) = ground (arith, Cited-is_cited ms token later)

module _ (claims : String → List (ℕ × String)) (is_tag : String → Bool) where
  -- A claim that follows the tag of something else, or is cited.
  abbrev pub Sound : Finding → ℕ × String → Type 0
  Sound f (index, token) =
      (is_tag (preceding claims is_tag (prose_of f) index) ≡ true) ⊎ Cited f.metrics token

  abbrev pub AllSound : Finding → Type 0
  AllSound f = All (Sound f) (claims (prose_of f))

  uncited_of-AllSound :
      (f : Finding) (found : List (ℕ × String))
      → uncited_of claims is_tag f.metrics (prose_of f) found ≡ []
      → All (Sound f) found
  unfolding uncited_of
  uncited_of-AllSound f [] e = tt
  uncited_of-AllSound f ((index, token) ∷ found) e =
      elim (Bool-cases (is_tag (preceding claims is_tag (prose_of f) index))) [
        | inl tag ↦ (inl tag, uncited_of-AllSound f found (rw tag at e))
        | inr plain ↦ elim (Bool-cases (is_cited f.metrics token)) [
          | inl cited ↦ (
            inr (is_cited-Cited f.metrics token cited),
            uncited_of-AllSound f found (rw cited at (rw plain at e)),
          )
          | inr bare ↦ cc (rw bare at (rw plain at e))
        ]
      ]

  AllSound-uncited_of :
      (f : Finding) (found : List (ℕ × String))
      → All (Sound f) found
      → uncited_of claims is_tag f.metrics (prose_of f) found ≡ []
  unfolding uncited_of
  AllSound-uncited_of f [] h = refl
  AllSound-uncited_of f ((index, token) ∷ found) (inl tag, h) =
      rw tag (AllSound-uncited_of f found h)
  AllSound-uncited_of f ((index, token) ∷ found) (inr cited, h) =
      rw (Cited-is_cited f.metrics token cited) (ground (arith, AllSound-uncited_of f found h))

  -- What a draft has to be to be published.
  abbrev pub IsPublishable : Option Value → Type 0
  IsPublishable v = (f : Finding) × (parse_given v ≡ some f) × AllSound f

  module _ (stores : Value → Bool) (t : String) (value : Option Value) (actor uuid : String)
      (db : Db) where
    abbrev pub with_finding : Finding → Db
    with_finding f = record db {
      findings =
          insert t (record { finding_id = "f_" ++ uuid; finding = finding_json f }) db.findings;
      audit_log =
          insert t
            (record {
              actor = actor;
              operation = Operation.finding;
              event = slice_to 120 f.headline;
              before = null;
              after = obj (
                  field "finding_id" (str ("f_" ++ uuid))
                    (field "layer" (str f.layer) (field "severity" (str f.severity) end)));
            })
            db.audit_log;
    }

    abbrev pub with_rejection : List String → Db
    with_rejection uncited = record db {
      rejections =
          insert t
            (record { reason = "uncited numbers: " ++ join ", " uncited; draft = draft_of value })
            db.rejections;
    }

    abbrev pub outcome : Result PublishResult
    outcome = publish_finding claims is_tag stores t value actor uuid db

    abbrev pub has_room : Bool
    has_room = stores_given claims is_tag stores value

    published-checked :
        (f : Finding)
        → parse_given value ≡ some f
        → AllSound f
        → stores (finding_json f) ≡ true
        → outcome ≡ ok (published ("f_" ++ uuid)) (with_finding f)
    unfolding publish_finding validate_finding_citations audit
    published-checked f e h k =
        rw e (rw (AllSound-uncited_of f (claims (prose_of f)) h) (rw e (rw k refl)))

    refused-checked :
        (f : Finding)
        → parse_given value ≡ some f
        → AllSound f
        → stores (finding_json f) ≡ false
        → outcome ≡ err failure
    unfolding publish_finding validate_finding_citations
    refused-checked f e h k =
        rw e (rw (AllSound-uncited_of f (claims (prose_of f)) h) (rw e (rw k refl)))

    not_publishable :
        (f : Finding) (u : String) (us : List String)
        → parse_given value ≡ some f
        → uncited_of claims is_tag f.metrics (prose_of f) (claims (prose_of f)) ≡ u ∷ us
        → IsPublishable value
        → ⊥
    not_publishable f u us e k (g, e', h) =
        let same : g ≡ f = cc (e, e') in
        let none_left = AllSound-uncited_of f (claims (prose_of f)) (subst AllSound same h) in
        cc (none_left, k)

    abbrev pub IsPublished : Type 0
    IsPublished =
        (f : Finding) × (parse_given value ≡ some f)
        × AllSound f
        × (stores (finding_json f) ≡ true)
        × (outcome ≡ ok (published ("f_" ++ uuid)) (with_finding f))

    abbrev pub IsFiled : Type 0
    IsFiled =
        (uncited : List String) × (IsPublishable value → ⊥)
        × (uncited ≢ [])
        × (has_room ≡ true)
        × (outcome ≡ ok (rejected uncited) (with_rejection uncited))

    -- The row that was due, a finding or a rejection, is one that the database refuses.
    abbrev pub IsLost : Type 0
    IsLost =
        (outcome ≡ err failure)
        × (((f : Finding) × (parse_given value ≡ some f)
              × AllSound f
              × (stores (finding_json f) ≡ false))
            ⊎ ((IsPublishable value → ⊥) × (has_room ≡ false)))

    filed_or_lost :
        (u : String) (us : List String)
        → (IsPublishable value → ⊥)
        → validate_finding_citations claims is_tag value ≡ some (u ∷ us)
        → IsFiled ⊎ IsLost
    unfolding publish_finding
    filed_or_lost u us n k = elim (Bool-cases has_room) [
      | inl takes ↦ inl (u ∷ us, n, λ z. cc, takes, rw k (rw takes refl))
      | inr refuses ↦ inr (rw k (rw refuses refl), inr (n, refuses))
    ]

    published_or_lost :
        (f : Finding) → parse_given value ≡ some f → AllSound f → IsPublished ⊎ IsLost
    published_or_lost f e h = elim (Bool-cases (stores (finding_json f))) [
      | inl takes ↦ inl (f, e, h, takes, published-checked f e h takes)
      | inr refuses ↦ inr (refused-checked f e h refuses, inl (f, e, h, refuses))
    ]

    by_claims :
        (f : Finding) (us : List String)
        → parse_given value ≡ some f
        → uncited_of claims is_tag f.metrics (prose_of f) (claims (prose_of f)) ≡ us
        → IsPublished ⊎ IsFiled ⊎ IsLost
    unfolding validate_finding_citations
    by_claims f [] e k =
        elim (published_or_lost f e (uncited_of-AllSound f (claims (prose_of f)) k)) [
          | inl done ↦ inl done
          | inr lost ↦ inr (inr lost)
        ]
    by_claims f (u ∷ us) e k =
        inr (filed_or_lost u us (not_publishable f u us e k) (rw e (rw k refl)))

    -- What becomes of a draft, which may be missing. One that passes the schema, and each of whose
    -- claims follows a tag or is cited, is stored and audited, and nothing else changes, if the
    -- database takes it. Any other draft is filed with the rejections, under a list of texts that is
    -- not empty, and nothing else changes, if the database takes it; it takes none that is missing.
    -- Where the database refuses the row, the call throws and nothing is kept.
    pub publish_finding-filed : IsPublished ⊎ IsFiled ⊎ IsLost
    unfolding validate_finding_citations
    publish_finding-filed = elim (Option-cases (parse_given value)) [
      | inl none' ↦
          inr (
            filed_or_lost "(finding failed schema validation)" [] (λ (f, e, h). cc) (rw none' refl))
      | inr (f, e) ↦
          by_claims f (uncited_of claims is_tag f.metrics (prose_of f) (claims (prose_of f))) e refl
    ]
