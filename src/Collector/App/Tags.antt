-- ===== src/Collector/App/Tags.antt =====
-- packages/collector/src/app.ts: what an event that is taken in carries, whatever it came with.
use mathlib.Core.Path.{subst}
use toqar.Common.Texts.{append-empty}
use toqar.Registry.Store.{Db}
use toqar.Registry.Store.Settings.{get_ingest_settings}
use toqar.Registry.Store.Tokens.{find_tenant_by_token}
use toqar.Common.{
  none, Option, false, ◌≡◌, refl, ap, ◌∙◌, false, String, some, List, [], ◌∷◌, ◌==◌, if◌then◌else◌,
  map_get, map_set, map_get-map_set, eq_iff, Bool-cases, inl, inr,
}
use toqar.Json.{Value, str, num, obj, Fields, end, field, fields, fields_of, prop}
use toqar.Collector.Redact.{
  between, Recognizer, replaced, replace_all, secret_recognizers, pii_recognizers, Piece, Counts,
  is_structural, structural_keys, redact_text, walk, walk_fields, redact_event,
}
use toqar.Collector.App.{
  authenticate, context_of, tenant_of, bearer_of, Context, with_field, enriched,
}

fields-fields_of : (xs : List (String × Value)) → fields (fields_of xs) ≡ xs
fields-fields_of [] = refl
fields-fields_of ((k, v) ∷ xs) = ap (λ t. (k, v) ∷ t) (fields-fields_of xs)

prop-with_field :
    (k j : String) (v : Value) (fs : Fields)
    → prop j (with_field k v (obj fs)) ≡ (if k == j then some v else map_get (fields fs) j)
prop-with_field k j v fs =
    rw (fields-fields_of (map_set (fields fs) k v)) (map_get-map_set (fields fs) k j v)

prop-walk_fields :
    (cut : String → String → List Piece) (fs : Fields) (counts : Counts) (key : String) (v : Value)
    → map_get (fields fs) key ≡ some v
    → (before : Counts) × (map_get (fields (walk_fields cut fs counts).0) key
        ≡ some (walk cut (some key) v before).0)
unfolding walk map_get
prop-walk_fields cut end counts key v h = cc
prop-walk_fields cut (field k w fs) counts key v h = elim (Bool-cases (k == key)) [
  | inl here ↦
      let e : w ≡ v = cc (rw here at h) in
      (counts, rw here (rw (← e) (rw ((eq_iff k key).0 here) refl)))
  | inr there ↦
      let (before, e) =
        prop-walk_fields cut fs (walk cut (some k) w counts).1 key v (rw there at h) in
      (before, rw there e)
]

abbrev residency_or : String → Option Context → String
residency_or u none = u
residency_or u (some c) = c.settings.residency

-- No recognizer matches anything in the text.
abbrev pub Clear : (String → String → List Piece) → String → Type 0
Clear cut text = (kind : String) → cut kind text ≡ between text ∷ []

replace_all-Clear :
    (cut : String → String → List Piece) (text : String) (rs : List Recognizer) (counts : Counts)
    → Clear cut text
    → replace_all cut rs text counts ≡ (text, counts)
unfolding replace_all replaced
replace_all-Clear cut text [] counts h = refl
replace_all-Clear cut text (r ∷ rs) counts h =
    rw (h r.kind) (rw (append-empty text) (replace_all-Clear cut text rs counts h))

redact_text-Clear :
    (cut : String → String → List Piece) (text : String)
    → Clear cut text
    → (redact_text cut text).0 ≡ text
unfolding redact_text
redact_text-Clear cut text h =
    rw (replace_all-Clear cut text secret_recognizers [] h)
      (ap (λ (r : String × Counts). r.0) (replace_all-Clear cut text pii_recognizers [] h))

module _ (cut : String → String → List Piece) (c : Context) where
  -- The marks that the routes put on an event.
  pub record Carries (e : Value) : Type 0 where
    pub tenant : prop "tenant_id" e ≡ some (str c.tenant)
    pub retention : prop "retention_days" e ≡ some (num c.settings.retention_days)
    pub residency : prop "residency" e ≡ some (str c.settings.residency)

  -- The event `e` with the marks over its own, and with all its other fields.
  pub record Marks (e m : Value) : Type 0 where
    pub marks : Carries m
    pub others :
        (key : String)
        → ("tenant_id" == key) ≡ false
        → ("retention_days" == key) ≡ false
        → ("residency" == key) ≡ false
        → prop key m ≡ prop key e

  -- What is handed over for the event `e`: the marked event, redacted unless the tenant opted out.
  pub record Handed (e x : Value) : Type 0 where
    pub marked : Value
    pub marks : Marks e marked
    pub redacted : x ≡ (if c.settings.redact then (redact_event cut marked).0 else marked)

  -- The same for each event of a list, in order.
  abbrev pub HandedOver : List Value → List Value → Type 0
  HandedOver [] [] = Unit
  HandedOver (e ∷ es) (x ∷ xs) = Handed e x × HandedOver es xs
  HandedOver es xs = ⊥

  pub enriched-Marks : (fs : Fields) → Marks (obj fs) (enriched c (obj fs))
  enriched-Marks fs =
      let t = fields_of (map_set (fields fs) "tenant_id" (str c.tenant)) in
      let d = fields_of (map_set (fields t) "retention_days" (num c.settings.retention_days)) in
      record {
        marks = record {
          tenant =
              prop-with_field "residency" "tenant_id" (str c.settings.residency) d
              ∙ prop-with_field "retention_days" "tenant_id" (num c.settings.retention_days) t
              ∙ prop-with_field "tenant_id" "tenant_id" (str c.tenant) fs;
          retention =
              prop-with_field "residency" "retention_days" (str c.settings.residency) d
              ∙ prop-with_field "retention_days" "retention_days" (num c.settings.retention_days) t;
          residency = prop-with_field "residency" "residency" (str c.settings.residency) d;
        };
        others = λ key h₁ h₂ h₃.
            (rw h₃ at (prop-with_field "residency" key (str c.settings.residency) d))
            ∙ (rw h₂ at (prop-with_field "retention_days" key (num c.settings.retention_days) t))
            ∙ (rw h₁ at (prop-with_field "tenant_id" key (str c.tenant) fs));
      }

  pub enriched-Handed :
      (fs : Fields) (x : Value)
      → x ≡ (
          if c.settings.redact
          then (redact_event cut (enriched c (obj fs))).0
          else enriched c (obj fs))
      → Handed (obj fs) x
  enriched-Handed fs x e = record {
    marked = enriched c (obj fs);
    marks = enriched-Marks fs;
    redacted = e;
  }

  redacted-Carries :
      (fs : Fields)
      → Clear cut c.settings.residency
      → Carries (obj fs)
      → Carries (redact_event cut (obj fs)).0
  unfolding redact_event walk is_structural structural_keys
  redacted-Carries fs clear m = record {
    tenant = (prop-walk_fields cut fs [] "tenant_id" (str c.tenant) m.tenant).1;
    retention =
        (prop-walk_fields cut fs [] "retention_days" (num c.settings.retention_days) m.retention).1;
    residency =
        (prop-walk_fields cut fs [] "residency" (str c.settings.residency) m.residency).1
        ∙ ap (λ t. some (str t)) (redact_text-Clear cut c.settings.residency clear);
  }

  -- An event as the routes hand it over.
  pub enriched-Carries :
      (fs : Fields)
      → Clear cut c.settings.residency
      → Carries (
          if c.settings.redact
          then (redact_event cut (enriched c (obj fs))).0
          else enriched c (obj fs))
  enriched-Carries fs clear = elim (Bool-cases c.settings.redact) [
    | inl on ↦ simp on (redacted-Carries _ clear (enriched-Marks fs).marks)
    | inr off ↦ simp off (enriched-Marks fs).marks
  ]

-- The settings of a request are those of its tenant.
pub authenticate-Clear :
    (cut : String → String → List Piece) (hash : String → String) (header : Option String) (db : Db)
    → ((u : String) → Clear cut (get_ingest_settings u db).residency)
    → (c : Context) → authenticate hash header db ≡ some c
    → Clear cut c.settings.residency
unfolding authenticate
authenticate-Clear cut hash header db clear c h =
    of_context (tenant_of (λ bearer. find_tenant_by_token hash bearer db) (bearer_of header)) h
  where
    of_context : (o : Option String) → context_of db o ≡ some c → Clear cut c.settings.residency
    of_context none e = cc
    of_context (some u) e = elim (Bool-cases (u == "")) [
      | inl empty ↦ cc (rw empty at e)
      | inr named ↦
          let same : ◌≡◌ {A = Option Context}
              (some (record { tenant = u; settings = get_ingest_settings u db })) (some c) =
            rw named at e in
          subst (λ (x : Option Context). Clear cut (residency_or u x)) same (clear u)
    ]
