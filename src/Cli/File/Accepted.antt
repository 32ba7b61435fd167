-- ===== src/Cli/File/Accepted.antt =====
-- packages/cli/src/file.ts: what holds of a file that was accepted.
use mathlib.Core.Path.{subst}
use toqar.Common.{
  ℕ, suc, String, none, some, List, [], ◌∷◌, ◌++◌, ◌≡◌, refl, ap, ◌∙◌, sym, ◌==◌, if◌then◌else◌,
  arith, inl, inr, eq_iff, Option-cases, All, All-append, map_get, map_get-map_set, append-nil,
  append_assoc,
}
use toqar.Json.{Value, as_items}
use toqar.Registry.Schema.{RegistryEntry, parse_entry}
use toqar.Registry.Schema.RoundTrip.{IsEntry, parse_entry-IsEntry}
use toqar.Cli.Diff.{by_event}
use toqar.Cli.Diff.Lookup.{Distinct}
use toqar.Cli.File.{
  loaded, Contents, no_file, no_json, json, Progress, add_value, load_values, verdict, load_items,
  load_registry_file, invalid, duplicate,
}

by_event-append :
    (es : List RegistryEntry) (e : RegistryEntry) (k : String)
    → by_event (es ++ e ∷ []) k ≡ (if e.event == k then some e else by_event es k)
unfolding by_event
by_event-append [] e k = refl
by_event-append (x ∷ xs) e k = ground (arith, by_event-append xs e k)

append-Distinct :
    (es : List RegistryEntry) (e : RegistryEntry)
    → Distinct es
    → by_event es e.event ≡ none
    → Distinct (es ++ e ∷ [])
unfolding by_event
append-Distinct [] e d h = (refl, tt)
append-Distinct (x ∷ xs) e (apart, d) h = elim (Option-cases (by_event xs e.event)) [
  | inl free ↦ (
    by_event-append xs e x.event ∙ ground (arith, eq_iff e.event x.event, eq_iff x.event e.event),
    append-Distinct xs e d free,
  )
  | inr (y, found) ↦ absurd (ground arith)
]

-- The entries are what the schema makes of the values, one for each and in their order.
abbrev pub Reads : List Value → List RegistryEntry → Type 0
Reads [] [] = Unit
Reads (v ∷ vs) (e ∷ es) = (parse_entry v ≡ some e) × Reads vs es
Reads vs es = ⊥

Reads-append :
    (vs : List Value) (es : List RegistryEntry) (v : Value) (e : RegistryEntry)
    → Reads vs es
    → parse_entry v ≡ some e
    → Reads (vs ++ v ∷ []) (es ++ e ∷ [])
Reads-append [] [] v e h k = (k, tt)
Reads-append [] (y ∷ ys) v e h k = absurd h
Reads-append (x ∷ xs) [] v e h k = absurd h
Reads-append (x ∷ xs) (y ∷ ys) v e (h, hs) k = (h, Reads-append xs ys v e hs k)

-- So far: the entries are valid, for distinct events, and all of them have been seen; as long
-- as there is no problem, the entries are those of the values `read`.
record IsLoading (read : List Value) (st : Progress) : Type 0 where
  pub valid : All IsEntry st.entries
  pub distinct : Distinct st.entries
  pub known : (k : String) → map_get st.seen k ≡ none → by_event st.entries k ≡ none
  pub reads : st.problems ≡ [] → Reads read st.entries

append-ne-nil : {A : Type 0} (xs : List A) (x : A) → xs ++ x ∷ [] ≡ [] → ⊥
append-ne-nil [] x h = cc
append-ne-nil (y ∷ ys) x h = cc

add_value-IsLoading :
    (read : List Value) (i : ℕ) (st : Progress) (v : Value)
    → IsLoading read st
    → IsLoading (read ++ v ∷ []) (add_value i st (parse_entry v))
add_value-IsLoading read i st v l = elim (Option-cases (parse_entry v)) [
  | inl bad ↦ rw bad (record {
    valid = l.valid;
    distinct = l.distinct;
    known = l.known;
    reads = λ h. absurd (append-ne-nil st.problems (invalid i) h);
  })
  | inr (e, good) ↦ rw good (elim (Option-cases (map_get st.seen e.event)) [
    | inl free ↦ rw free (record {
      valid = All-append IsEntry st.entries (e ∷ []) l.valid (parse_entry-IsEntry v e good, tt);
      distinct = append-Distinct st.entries e l.distinct (l.known e.event free);
      known = λ k h.
          by_event-append st.entries e k
          ∙ ground (arith, map_get-map_set st.seen e.event k i, l.known k);
      reads = λ h. Reads-append read st.entries v e (l.reads h) good;
    })
    | inr (prior, found) ↦ rw found (record {
      valid = l.valid;
      distinct = l.distinct;
      known = l.known;
      reads = λ h. absurd (append-ne-nil st.problems (duplicate i e.event prior) h);
    })
  ])
]

load_values-IsLoading :
    (read : List Value) (i : ℕ) (vs : List Value) (st : Progress)
    → IsLoading read st
    → IsLoading (read ++ vs) (load_values i vs st)
unfolding load_values
load_values-IsLoading read i [] st l = subst (λ m. IsLoading m st) (sym (append-nil read)) l
load_values-IsLoading read i (v ∷ vs) st l =
    subst (λ m. IsLoading m (load_values i (v ∷ vs) st)) (append_assoc read (v ∷ []) vs)
      (load_values-IsLoading (read ++ v ∷ []) (suc i) vs (add_value i st (parse_entry v))
        (add_value-IsLoading read i st v l))

start-IsLoading : IsLoading [] (record { problems = []; seen = []; entries = [] })
unfolding by_event
start-IsLoading = record { valid = tt; distinct = tt; known = λ k h. refl; reads = λ h. tt }

verdict-loaded :
    (st : Progress) (es : List RegistryEntry)
    → verdict st ≡ loaded es
    → (st.problems ≡ []) × (st.entries ≡ es)
verdict-loaded st es h = ground arith

-- A file that is accepted holds an array, and the entries are what the schema makes of its values, one
-- for each and in their order: all of them are valid, and no two are for one event.
pub load_registry_file-loaded :
    (c : Contents) (es : List RegistryEntry)
    → load_registry_file c ≡ loaded es
    → (v : Value) × (vs : List Value) × (c ≡ json v)
      × (as_items v ≡ some vs)
      × Reads vs es
      × All IsEntry es
      × Distinct es
unfolding load_registry_file
load_registry_file-loaded no_file es h = cc
load_registry_file-loaded no_json es h = cc
load_registry_file-loaded (json v) es h = elim (Option-cases (as_items v)) [
  | inl bad ↦ absurd (ground arith)
  | inr (vs, good) ↦
      let st = load_values 0 vs (record { problems = []; seen = []; entries = [] }) in
      let l = load_values-IsLoading [] 0 vs _ start-IsLoading in
      let (clean, same) = verdict-loaded st es (sym (ap load_items good) ∙ h) in
      (
        v,
        vs,
        refl,
        good,
        subst (Reads vs) same (l.reads clean),
        subst (All IsEntry) same l.valid,
        subst Distinct same l.distinct,
      )
]
