-- ===== src/Registry/Events/Conformance.antt =====
-- packages/registry/src/events.ts: what a successful parse of a core event returns.
use mathlib.Core.Path.{subst}
use toqar.Common.{
  String, true, Option, none, some, List, [], ◌∷◌, ◌≡◌, refl, sym, ap, ◌∙◌, ◌==◌, map_get,
  Bool-cases, inl, inr, All,
}
use toqar.Json.{prop, Value, obj, str, Fields, fields}
use toqar.Registry.Shapes.{Shape, member, required, literal, Check, Formats, Issue, cleaned, issues}
use toqar.Registry.Shapes.Stability.{image, find_member, map_get-cleaned, is_proper, cleaned-issues}
use toqar.Registry.Events.{
  parse_chosen, envelope, core, core_events, accepted, safe_parsed, chosen, parse_with, parse_event,
}

-- A core event's check: an envelope with the event's name, in which no object names a key twice.
abbrev IsCore : Check → Type 0
IsCore c = (name : String) × (rest : Shape) × (c ≡ core name rest) × (is_proper c ≡ true)

core_events-IsCore : All (λ (entry : String × Check). IsCore entry.1) core_events
unfolding core_events is_proper
core_events-IsCore = (
  (_, _, refl, refl),
  (
    (_, _, refl, refl),
    (
      (_, _, refl, refl),
      (
        (_, _, refl, refl),
        (
          (_, _, refl, refl),
          (
            (_, _, refl, refl),
            (
              (_, _, refl, refl),
              ((_, _, refl, refl), ((_, _, refl, refl), ((_, _, refl, refl), tt))),
            ),
          ),
        ),
      ),
    ),
  ),
)

map_get-IsCore :
    (entries : List (String × Check)) (name : String) (c : Check)
    → All (λ (entry : String × Check). IsCore entry.1) entries
    → map_get entries name ≡ some c
    → IsCore c
unfolding map_get
map_get-IsCore [] name c h e = cc
map_get-IsCore ((k, d) ∷ entries) name c (h, hs) e = elim (Bool-cases (k == name)) [
  | inl same ↦ subst IsCore (cc (rw same at e)) h
  | inr other ↦ map_get-IsCore entries name c hs (rw other at e)
]

image-literal : (name : String) (o : Option Value) → image (cleaned (literal name)) o ≡ o
unfolding cleaned
image-literal name none = refl
image-literal name (some v) = refl

find_member-event :
    (name : String) (rest : Shape)
    → find_member (envelope (member required "event" (literal name) rest)) "event"
      ≡ some (literal name)
unfolding find_member
find_member-event name rest = refl

-- The member that tells the events apart is kept.
prop-cleaned :
    (c : Check) (fs : Fields)
    → IsCore c
    → prop "event" (cleaned c (obj fs)) ≡ map_get (fields fs) "event"
prop-cleaned c fs (name, rest, is_core, proper) = rw is_core (
    map_get-cleaned (envelope (member required "event" (literal name) rest)) fs "event"
      (literal name) (rw is_core at proper) (find_member-event name rest)
    ∙ image-literal name (map_get (fields fs) "event"))

-- What a check of a core event makes of an object is an object.
cleaned-obj : (c : Check) (fs : Fields) → IsCore c → (gs : Fields) × (cleaned c (obj fs) ≡ obj gs)
unfolding cleaned
cleaned-obj c fs (name, rest, is_core, proper) = rw is_core (_, refl)

module _ (formats : Formats) where
  safe_parsed-eq-accepted :
      (is : List Issue) (v e : Value) → safe_parsed is v ≡ accepted e → (is ≡ []) × (v ≡ e)
  safe_parsed-eq-accepted [] v e h = (refl, cc)
  safe_parsed-eq-accepted (i ∷ is) v e h = cc

  parse_with-again :
      (c : Check) (v e : Value)
      → is_proper c ≡ true
      → parse_with formats c v ≡ accepted e
      → (cleaned c v ≡ e) × (parse_with formats c e ≡ accepted e)
  parse_with-again c v e proper h =
      let (none_found, same) = safe_parsed-eq-accepted (issues formats c [] v) (cleaned c v) e h in
      let (still, again) = cleaned-issues formats c v [] proper none_found in
      (same, rw (← same) (rw still (ap accepted again)))

  chosen-IsCore : (o : Option Value) (c : Check) → chosen o ≡ some c → IsCore c
  chosen-IsCore (some (str name)) c h = map_get-IsCore core_events name c core_events-IsCore h
  chosen-IsCore _ c h = cc

  parse_chosen-again :
      (fs : Fields) (e : Value) (o : Option Check)
      → chosen (map_get (fields fs) "event") ≡ o
      → parse_chosen formats o (obj fs) ≡ accepted e
      → (parse_event formats e ≡ accepted e) × (prop "event" e ≡ map_get (fields fs) "event")
  unfolding parse_event
  parse_chosen-again fs e none k h = cc
  parse_chosen-again fs e (some c) k h =
      let is_core = chosen-IsCore (map_get (fields fs) "event") c k in
      let (same, again) = parse_with-again c (obj fs) e is_core.3 h in
      let (gs, shape) = cleaned-obj c fs is_core in
      let kept = ap (prop "event") (sym same) ∙ prop-cleaned c fs is_core in
      let whole = sym same ∙ shape in
      (rw whole (rw (sym (ap (prop "event") whole) ∙ kept) (rw k (rw (← whole) again))), kept)

  -- What `toqarEventSchema` accepts, it returns with the name that it came with and in a form that it
  -- accepts again and returns unchanged.
  pub parse_event-again :
      (v e : Value)
      → parse_event formats v ≡ accepted e
      → (parse_event formats e ≡ accepted e) × (prop "event" e ≡ prop "event" v)
  unfolding parse_event
  parse_event-again (obj fs) e h =
      parse_chosen-again fs e (chosen (map_get (fields fs) "event")) refl h
  parse_event-again v e h = cc

  parse_chosen-obj :
      (fs : Fields) (e : Value) (o : Option Check)
      → chosen (map_get (fields fs) "event") ≡ o
      → parse_chosen formats o (obj fs) ≡ accepted e
      → (gs : Fields) × (e ≡ obj gs)
  parse_chosen-obj fs e none k h = cc
  parse_chosen-obj fs e (some c) k h =
      let is_core = chosen-IsCore (map_get (fields fs) "event") c k in
      let (same, again) = parse_with-again c (obj fs) e is_core.3 h in
      let (gs, shape) = cleaned-obj c fs is_core in (gs, sym same ∙ shape)

  pub parse_event-obj :
      (v e : Value) → parse_event formats v ≡ accepted e → (gs : Fields) × (e ≡ obj gs)
  unfolding parse_event
  parse_event-obj (obj fs) e h = parse_chosen-obj fs e (chosen (map_get (fields fs) "event")) refl h
  parse_event-obj v e h = cc
