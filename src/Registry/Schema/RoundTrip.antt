-- ===== src/Registry/Schema/RoundTrip.antt =====
-- packages/registry/src/tracking-plan.ts: a stored entry reads back as it was written.
use toqar.Common.{String, false, Option, none, some, ◌≡◌, ◌≢◌, arith, eq_iff, ◌==◌, map_get}
use mathlib.Core.Option.{some-injective}
use mathlib.Core.Path.{subst}
use toqar.Common.Options.{bind-eq-some}
use toqar.Json.{optional_text_of, str, Value, text, prop, optional_text}
use toqar.Registry.Schema.{
  Status, proposed, active, deprecated, RegistryEntry, parse_entry, entry_json, status_field,
}

-- What `registryEntrySchema` asks of a parsed entry.
pub record IsEntry (e : RegistryEntry) : Type 0 where
  pub event : e.event ≢ ""
  pub description : e.description ≢ ""
  pub journey : e.journey ≢ ""
  pub owner_metric : e.owner_metric ≢ ""
  pub hypothesis : e.hypothesis ≢ some ""
  pub since_version : e.since_version ≢ ""

pub eq-false_of_ne : (s t : String) → s ≢ t → (s == t) ≡ false
eq-false_of_ne s t h = ground (arith, eq_iff s t)

module _ (event description journey owner_metric since_version : String)
    (event_filled : (event == "") ≡ false) (description_filled : (description == "") ≡ false)
    (journey_filled : (journey == "") ≡ false) (owner_metric_filled : (owner_metric == "") ≡ false)
    (since_version_filled : (since_version == "") ≡ false) where
  abbrev entry : Option String → Status → RegistryEntry
  entry h s = record {
    event = event;
    description = description;
    journey = journey;
    owner_metric = owner_metric;
    hypothesis = h;
    status = s;
    since_version = since_version;
  }

  read_back :
      (h : Option String) (s : Status)
      → h ≢ some ""
      → parse_entry (entry_json (entry h s)) ≡ some (entry h s)
  unfolding parse_entry entry_json map_get
  read_back none proposed v = ground arith
  read_back (some x) proposed v = ground (arith, eq_iff x "")
  read_back none active v = ground arith
  read_back (some x) active v = ground (arith, eq_iff x "")
  read_back none deprecated v = ground arith
  read_back (some x) deprecated v = ground (arith, eq_iff x "")

pub parse_entry-entry_json : (e : RegistryEntry) → IsEntry e → parse_entry (entry_json e) ≡ some e
parse_entry-entry_json e v =
    read_back e.event e.description e.journey e.owner_metric e.since_version
      (eq-false_of_ne _ _ v.event) (eq-false_of_ne _ _ v.description) (eq-false_of_ne _ _ v.journey)
      (eq-false_of_ne _ _ v.owner_metric) (eq-false_of_ne _ _ v.since_version) e.hypothesis e.status
      v.hypothesis

pub text_filled : (k : String) (v : Value) (s : String) → text k v ≡ some s → s ≢ ""
text_filled k v s e = ground (arith, eq_iff s "")

pub optional_text_of_filled :
    (o : Option Value) (t : Option String) → optional_text_of o ≡ some t → t ≢ some ""
optional_text_of_filled none t e = ground arith
optional_text_of_filled (some (str s)) t e = ground (arith, eq_iff s "")
optional_text_of_filled (some v) t e = cc

pub parse_entry-IsEntry : (v : Value) (e : RegistryEntry) → parse_entry v ≡ some e → IsEntry e
unfolding parse_entry
parse_entry-IsEntry v e h =
    let (event, h₁, k₁) = bind-eq-some (text "event" v) _ h in
    let (description, h₂, k₂) = bind-eq-some (text "description" v) _ k₁ in
    let (journey, h₃, k₃) = bind-eq-some (text "journey" v) _ k₂ in
    let (owner_metric, h₄, k₄) = bind-eq-some (text "owner_metric" v) _ k₃ in
    let (hypothesis, h₅, k₅) = bind-eq-some (optional_text "hypothesis" v) _ k₄ in
    let (status, h₆, k₆) = bind-eq-some (status_field v) _ k₅ in
    let (since_version, h₇, k₇) = bind-eq-some (text "since_version" v) _ k₆ in
    let same : _ ≡ e = some-injective _ _ k₇ in
    subst IsEntry same (record {
      event = text_filled "event" v event h₁;
      description = text_filled "description" v description h₂;
      journey = text_filled "journey" v journey h₃;
      owner_metric = text_filled "owner_metric" v owner_metric h₄;
      hypothesis = optional_text_of_filled (prop "hypothesis" v) hypothesis h₅;
      since_version = text_filled "since_version" v since_version h₇;
    })
