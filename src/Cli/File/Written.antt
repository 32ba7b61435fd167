-- ===== src/Cli/File/Written.antt =====
-- packages/cli/src/file.ts: a file that was written loads, and holds what was written.
use toqar.Common.{
  ℕ, suc, String, Bool, false, none, some, List, [], ◌∷◌, ◌++◌, ◌≡◌, refl, sym, ap, ◌∙◌, ◌==◌, map,
  append_assoc, append-nil, arith, inl, inr, eq_iff, Bool-cases, Option-cases, All, map_get,
  map_set, map_get-map_set,
}
use toqar.Json.{Value, items, items_of, as_items}
use toqar.Registry.Schema.{RegistryEntry, parse_entry, entry_json}
use toqar.Registry.Schema.RoundTrip.{IsEntry, parse_entry-entry_json}
use toqar.Cli.Diff.{by_event}
use toqar.Cli.Diff.Lookup.{Distinct}
use toqar.Cli.File.{
  loaded, json, Progress, add_value, load_values, verdict, load_registry_file, insert_sorted,
  sort_by_event, write_registry_file,
}

-- No entry is for the event `k`.
abbrev Without : String → List RegistryEntry → Type 0
Without k = All (λ (e : RegistryEntry). (e.event == k) ≡ false)

by_event-Without : (k : String) (es : List RegistryEntry) → by_event es k ≡ none → Without k es
unfolding by_event
by_event-Without k [] h = tt
by_event-Without k (e ∷ es) h = elim (Option-cases (by_event es k)) [
  | inl free ↦ (ground arith, by_event-Without k es free)
  | inr (x, found) ↦ absurd (ground arith)
]

items-items_of : (vs : List Value) → items (items_of vs) ≡ vs
items-items_of [] = refl
items-items_of (v ∷ vs) = ap (λ rest. v ∷ rest) (items-items_of vs)

-- Entries whose events have not been seen.
abbrev AllFresh : Progress → List RegistryEntry → Type 0
AllFresh st = All (λ (e : RegistryEntry). map_get st.seen e.event ≡ none)

AllFresh-add :
    (i : ℕ) (e : RegistryEntry) (st st' : Progress) (es : List RegistryEntry)
    → st'.seen ≡ map_set st.seen e.event i
    → Without e.event es
    → AllFresh st es
    → AllFresh st' es
AllFresh-add i e st st' [] h w f = tt
AllFresh-add i e st st' (x ∷ xs) h (apart, w) (free, f) = (
  ap (λ seen. map_get seen x.event) h
      ∙ ground (
        arith,
        map_get-map_set st.seen e.event x.event i,
        eq_iff e.event x.event,
        eq_iff x.event e.event,
      ),
  AllFresh-add i e st st' xs h w f,
)

load_values-entries :
    (i : ℕ) (es : List RegistryEntry) (st : Progress)
    → All IsEntry es
    → Distinct es
    → AllFresh st es
    → ((load_values i (map entry_json es) st).problems ≡ st.problems)
      × ((load_values i (map entry_json es) st).entries ≡ st.entries ++ es)
unfolding load_values
load_values-entries i [] st v d f = (refl, sym (append-nil st.entries))
load_values-entries i (e ∷ es) st (valid, v) (apart, d) (free, f) =
    let next : Progress = record st {
      seen = map_set st.seen e.event i;
      entries = st.entries ++ e ∷ [];
    } in
    let step : add_value i st (parse_entry (entry_json e)) ≡ next =
      rw (parse_entry-entry_json e valid) (rw free refl) in
    let (clean, all') =
      load_values-entries (suc i) es next v d
        (AllFresh-add i e st next es refl (by_event-Without e.event es apart) f) in
    (
      ap (λ (q : Progress). (load_values (suc i) (map entry_json es) q).problems) step ∙ clean,
      ap (λ (q : Progress). (load_values (suc i) (map entry_json es) q).entries) step
          ∙ (all' ∙ append_assoc st.entries (e ∷ []) es),
    )

verdict-clean :
    (st : Progress) (es : List RegistryEntry)
    → st.problems ≡ []
    → st.entries ≡ es
    → verdict st ≡ loaded es
verdict-clean st es p e = ground arith

AllFresh-nothing :
    (es : List RegistryEntry) → AllFresh (record { problems = []; seen = []; entries = [] }) es
unfolding map_get
AllFresh-nothing [] = tt
AllFresh-nothing (e ∷ es) = (refl, AllFresh-nothing es)

-- Valid entries for distinct events load from their JSON.
load_registry_file-entries :
    (es : List RegistryEntry) (v : Value)
    → as_items v ≡ some (map entry_json es)
    → All IsEntry es
    → Distinct es
    → load_registry_file (json v) ≡ loaded es
unfolding load_registry_file
load_registry_file-entries es v listed valid d =
    let start : Progress = record { problems = []; seen = []; entries = [] } in
    let (clean, all') = load_values-entries 0 es start valid d (AllFresh-nothing es) in
    rw listed (verdict-clean (load_values 0 (map entry_json es) start) es clean all')

by_event_tail :
    (x : RegistryEntry) (xs : List RegistryEntry) (k : String)
    → by_event (x ∷ xs) k ≡ none
    → by_event xs k ≡ none
unfolding by_event
by_event_tail x xs k h = ground arith

by_event_cons :
    (e : RegistryEntry) (xs : List RegistryEntry) (k : String)
    → (k == e.event) ≡ false
    → by_event xs k ≡ none
    → by_event (e ∷ xs) k ≡ none
unfolding by_event
by_event_cons e xs k ne h = ground (arith, eq_iff k e.event, eq_iff e.event k)

by_event_congr :
    (e : RegistryEntry) (xs ys : List RegistryEntry) (k : String)
    → by_event xs k ≡ by_event ys k
    → by_event (e ∷ xs) k ≡ by_event (e ∷ ys) k
unfolding by_event
by_event_congr e xs ys k h = rw h refl

module _ (before : String → String → Bool) where
  by_event-insert_sorted :
      (e : RegistryEntry) (es : List RegistryEntry) (k : String)
      → Without e.event es
      → by_event (insert_sorted before e es) k ≡ by_event (e ∷ es) k
  unfolding insert_sorted by_event
  by_event-insert_sorted e [] k w = refl
  by_event-insert_sorted e (x ∷ xs) k (apart, w) = elim (Bool-cases (before x.event e.event)) [
    | inr first ↦ rw first refl
    | inl later ↦ rw later (
        ground (
          arith,
          by_event-insert_sorted e xs k w,
          eq_iff x.event k,
          eq_iff e.event k,
          eq_iff x.event e.event,
        ))
  ]

  All-insert_sorted :
      (P : RegistryEntry → Type 0) (e : RegistryEntry) (es : List RegistryEntry)
      → P e
      → All P es
      → All P (insert_sorted before e es)
  unfolding insert_sorted
  All-insert_sorted P e [] p h = (p, tt)
  All-insert_sorted P e (x ∷ xs) p (q, h) = elim (Bool-cases (before x.event e.event)) [
    | inl later ↦ rw later (q, All-insert_sorted P e xs p h)
    | inr first ↦ rw first (p, (q, h))
  ]

  insert_sorted-Distinct :
      (e : RegistryEntry) (es : List RegistryEntry)
      → by_event es e.event ≡ none
      → Distinct es
      → Distinct (insert_sorted before e es)
  unfolding insert_sorted
  insert_sorted-Distinct e [] a d = (a, tt)
  insert_sorted-Distinct e (x ∷ xs) a (b, d) = elim (Bool-cases (before x.event e.event)) [
    | inr first ↦ rw first (a, (b, d))
    | inl later ↦
        let (apart, w) = by_event-Without e.event (x ∷ xs) a in
        rw later (
          by_event-insert_sorted e xs x.event w ∙ by_event_cons e xs x.event apart b,
          insert_sorted-Distinct e xs (by_event_tail x xs e.event a) d,
        )
  ]

  sort_by_event-sorted :
      (es : List RegistryEntry)
      → Distinct es
      → Distinct (sort_by_event before es)
        × ((k : String) → by_event (sort_by_event before es) k ≡ by_event es k)
  unfolding sort_by_event
  sort_by_event-sorted [] d = (tt, λ k. refl)
  sort_by_event-sorted (e ∷ es) (apart, d) =
      let (sorted, same) = sort_by_event-sorted es d in
      let free = same e.event ∙ apart in
      let w = by_event-Without e.event (sort_by_event before es) free in
      (
        insert_sorted-Distinct e (sort_by_event before es) free sorted,
        λ k.
            by_event-insert_sorted e (sort_by_event before es) k w
            ∙ by_event_congr e _ _ k (same k),
      )

  All-sort_by_event :
      (P : RegistryEntry → Type 0) (es : List RegistryEntry)
      → All P es
      → All P (sort_by_event before es)
  unfolding sort_by_event
  All-sort_by_event P [] h = tt
  All-sort_by_event P (e ∷ es) (p, h) =
      All-insert_sorted P e (sort_by_event before es) p (All-sort_by_event P es h)

  -- What `writeRegistryFile` wrote of valid entries for distinct events, `loadRegistryFile` accepts:
  -- it loads entries for distinct events again, and under each event the entry that was written.
  pub load_registry_file-write_registry_file :
      (es : List RegistryEntry)
      → All IsEntry es
      → Distinct es
      → (read : List RegistryEntry) × (load_registry_file (json (write_registry_file before es))
          ≡ loaded read)
        × Distinct read
        × ((k : String) → by_event read k ≡ by_event es k)
  unfolding write_registry_file
  load_registry_file-write_registry_file es valid d =
      let (sorted, same) = sort_by_event-sorted es d in
      (
        sort_by_event before es,
        load_registry_file-entries (sort_by_event before es) (write_registry_file before es)
            (ap some (items-items_of (map entry_json (sort_by_event before es))))
            (All-sort_by_event IsEntry es valid) sorted,
        sorted,
        same,
      )
