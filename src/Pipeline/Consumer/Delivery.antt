-- ===== src/Pipeline/Consumer/Delivery.antt =====
-- packages/pipeline/src/redpanda.ts: what a batch has come to, by how its handler ended.
use mathlib.Core.Path.{subst}
use toqar.Common.{
  ◌≤◌, ap, ℕ, suc, ◌+◌, String, Option, none, some, List, [], ◌∷◌, ◌++◌, map, ◌≡◌, refl, ◌∙◌,
  length, arith, Bool-cases, inl, inr,
}
use toqar.Json.{Value, prop}
use toqar.Pipeline.Transform.{EventRow, to_row}
use toqar.Pipeline.Consumer.{
  Commit, commits, leaves_open, fails, Ending, ended, dead_letter_failed, commit_failed,
  commit_batch, lettered, Region, us, eu, Dead, unmappable, unparsable, insert_failed, Services,
  Pipeline, Sorted, route, place, sort_row, sort_value, sort_message, sort_all, stored, called,
  insert_rows, finish, each_batch, residency_of,
}

-- How far the commit moves the offset of a batch of `n` messages.
abbrev pub moved : Commit → ℕ → ℕ
moved commits n = n
moved c n = 0

module _ (w : EventRow → ℕ) (d : String → ℕ) where
  unfoldable pub sum_rows : List EventRow → ℕ
  sum_rows [] = 0
  sum_rows (r ∷ rs) = w r + sum_rows rs

  abbrev pub weight : Dead → ℕ
  weight (unmappable raw) = d raw
  weight (unparsable raw) = d raw
  weight (insert_failed r) = w r

  unfoldable pub sum_dead : List Dead → ℕ
  sum_dead [] = 0
  sum_dead (x ∷ xs) = weight x + sum_dead xs

  -- What is kept of all messages so far.
  abbrev pub total : Pipeline → ℕ
  total p = sum_rows p.us_rows + sum_rows p.eu_rows + sum_dead p.dead_letters

  sum_rows-append : (xs ys : List EventRow) → sum_rows (xs ++ ys) ≡ sum_rows xs + sum_rows ys
  unfolding sum_rows
  sum_rows-append [] ys = omega arith
  sum_rows-append (x ∷ xs) ys = omega (arith, sum_rows-append xs ys)

  sum_dead-append : (xs ys : List Dead) → sum_dead (xs ++ ys) ≡ sum_dead xs + sum_dead ys
  unfolding sum_dead
  sum_dead-append [] ys = omega arith
  sum_dead-append (x ∷ xs) ys = omega (arith, sum_dead-append xs ys)

  sum_dead-failed : (rs : List EventRow) → sum_dead (map insert_failed rs) ≡ sum_rows rs
  unfolding sum_dead sum_rows
  sum_dead-failed [] = refl
  sum_dead-failed (r ∷ rs) = omega (arith, sum_dead-failed rs)

  module _ (s : Services) where
    -- What one message is worth: its row, or its text where it has none.
    abbrev pub row_worth : String → Option EventRow → ℕ
    row_worth raw none = d raw
    row_worth raw (some r) = w r

    abbrev pub value_worth : String → Option Value → ℕ
    value_worth raw none = d raw
    value_worth raw (some v) = row_worth raw (to_row s.formats v)

    abbrev pub worth : Option String → ℕ
    worth none = 0
    worth (some raw) = value_worth raw (s.parse_json raw)

    unfoldable pub sum_worth : List (Option String) → ℕ
    sum_worth [] = 0
    sum_worth (m ∷ ms) = worth m + sum_worth ms

    abbrev sorted_total : Sorted → ℕ
    sorted_total b = sum_rows b.us_bucket + sum_rows b.eu_bucket + sum_dead b.dead

    sort_row-total :
        (raw : String) (v : Value) (o : Option EventRow) (b : Sorted)
        → sorted_total (sort_row s raw v o b) ≡ sorted_total b + row_worth raw o
    unfolding sum_rows sum_dead
    sort_row-total raw v none b = omega (arith, sum_dead-append b.dead (unmappable raw ∷ []))
    sort_row-total raw v (some r) b = placed (route s (residency_of (prop "residency" v)))
      where
        placed : (g : Region) → sorted_total (place g r b) ≡ sorted_total b + w r
        placed us = omega (arith, sum_rows-append b.us_bucket (r ∷ []))
        placed eu = omega (arith, sum_rows-append b.eu_bucket (r ∷ []))

    sort_value-total :
        (raw : String) (o : Option Value) (b : Sorted)
        → sorted_total (sort_value s raw o b) ≡ sorted_total b + value_worth raw o
    unfolding sum_dead
    sort_value-total raw none b = omega (arith, sum_dead-append b.dead (unparsable raw ∷ []))
    sort_value-total raw (some v) b = sort_row-total raw v (to_row s.formats v) b

    sort_message-total :
        (m : Option String) (b : Sorted)
        → sorted_total (sort_message s m b) ≡ sorted_total b + worth m
    sort_message-total none b = omega arith
    sort_message-total (some raw) b = sort_value-total raw (s.parse_json raw) b

    sort_all-total :
        (ms : List (Option String)) (b : Sorted)
        → sorted_total (sort_all s ms b) ≡ sorted_total b + sum_worth ms
    unfolding sort_all sum_worth
    sort_all-total [] b = omega arith
    sort_all-total (m ∷ ms) b =
        omega (arith, sort_all-total ms (sort_message s m b), sort_message-total m b)

    stored-total :
        (g : Region) (rs : List EventRow) (p : Pipeline)
        → (total (stored g rs p) ≡ total p + sum_rows rs)
          × ((stored g rs p).committed ≡ p.committed)
          × ((stored g rs p).dead_letters ≡ p.dead_letters)
    stored-total us rs p = (omega (arith, sum_rows-append p.us_rows rs), refl, refl)
    stored-total eu rs p = (omega (arith, sum_rows-append p.eu_rows rs), refl, refl)

    -- Rows are written or come back, and nothing else changes.
    insert_rows-total :
        (g : Region) (rs : List EventRow) (p : Pipeline)
        → (total (insert_rows s g rs p).0 + sum_rows (insert_rows s g rs p).1
            ≡ total p + sum_rows rs)
          × ((insert_rows s g rs p).0.committed ≡ p.committed)
          × ((insert_rows s g rs p).0.dead_letters ≡ p.dead_letters)
    unfolding insert_rows sum_rows
    insert_rows-total g [] p = (omega arith, refl, refl)
    insert_rows-total g (r ∷ rs) p = elim (Bool-cases (s.inserts p.insert_calls)) [
      | inl once ↦
          rw once (let (t, c, l) = stored-total g (r ∷ rs) (called p) in (omega (arith, t), c, l))
      | inr failed ↦ rw failed (elim (Bool-cases (s.inserts (suc p.insert_calls))) [
        | inl again ↦ rw again (
            let (t, c, l) = stored-total g (r ∷ rs) (called (called p)) in (omega (arith, t), c, l))
        | inr lost ↦ rw lost (omega arith, refl, refl)
      ])
    ]

    -- What a batch that is worth `gain` has come to, by how the handler ended.
    abbrev pub Comes : ℕ → ℕ → Pipeline → Pipeline → Ending → Type 0
    Comes gain n p p' ended =
        (total p' ≡ total p + gain) × (p'.committed ≡ p.committed + moved s.commit n)
    Comes gain n p p' commit_failed = (total p' ≡ total p + gain) × (p'.committed ≡ p.committed)
    Comes gain n p p' dead_letter_failed =
        (total p' ≤ total p + gain)
        × (p'.committed ≡ p.committed)
        × (p'.dead_letters ≡ p.dead_letters)

    commit_batch-Comes :
        (gain n : ℕ) (p q : Pipeline) (c : Commit)
        → s.commit ≡ c
        → total q ≡ total p + gain
        → q.committed ≡ p.committed
        → Comes gain n p (commit_batch s n q c).0 (commit_batch s n q c).1
    commit_batch-Comes gain n p q commits k t c = (t, omega (arith, c, ap (λ x. moved x n) k))
    commit_batch-Comes gain n p q leaves_open k t c = (t, omega (arith, c, ap (λ x. moved x n) k))
    commit_batch-Comes gain n p q fails k t c = (t, c)

    finish-Comes :
        (gain n : ℕ) (ds : List Dead) (p q : Pipeline)
        → total q + sum_dead ds ≡ total p + gain
        → q.committed ≡ p.committed
        → q.dead_letters ≡ p.dead_letters
        → Comes gain n p (finish s n ds q).0 (finish s n ds q).1
    unfolding sum_dead
    finish-Comes gain n [] p q t c l =
        commit_batch-Comes gain n p q s.commit refl (omega (arith, t)) c
    finish-Comes gain n (x ∷ xs) p q t c l = elim (Bool-cases (s.takes_dead (x ∷ xs))) [
      | inl taken ↦ rw taken (
          commit_batch-Comes gain n p (lettered s (x ∷ xs) q) s.commit refl
            (omega (arith, t, sum_dead-append q.dead_letters (x ∷ xs))) c)
      | inr refused ↦ rw refused (omega (arith, t), c, l)
    ]

abbrev no_rows : Sorted
no_rows = record { us_bucket = []; eu_bucket = []; dead = []; failures = 0 }

each_batch-Comes :
    (w : EventRow → ℕ) (d : String → ℕ) (s : Services) (messages : List (Option String))
    (p : Pipeline)
    → Comes w d s
        (sum_worth w d s messages)
        (length messages)
        p
        (each_batch s messages p).0
        (each_batch s messages p).1
unfolding each_batch sum_rows sum_dead
each_batch-Comes w d s messages p =
    let b = sort_all s messages no_rows in
    let q = insert_rows s us b.us_bucket p in
    let q' = insert_rows s eu b.eu_bucket q.0 in
    let (t₁, c₁, l₁) = insert_rows-total w d s us b.us_bucket p in
    let (t₂, c₂, l₂) = insert_rows-total w d s eu b.eu_bucket q.0 in
    finish-Comes w d s (sum_worth w d s messages) (length messages)
      (b.dead ++ (map insert_failed q.1 ++ map insert_failed q'.1)) p
      (record q'.0 { unmapped = q'.0.unmapped + b.failures })
      (omega (
        arith,
        t₁,
        t₂,
        sort_all-total w d s messages no_rows,
        sum_dead-append w d b.dead (map insert_failed q.1 ++ map insert_failed q'.1),
        sum_dead-append w d (map insert_failed q.1) (map insert_failed q'.1),
        sum_dead-failed w d q.1,
        sum_dead-failed w d q'.1,
      ))
      (c₂ ∙ c₁) (l₂ ∙ l₁)

-- A batch whose dead-letter write and commit do not throw is kept whole: whatever a row and a raw text are worth, the rows written
-- to the two regions and the entries of the dead-letter topic have together gained what the messages
-- are worth, a message with a row by its row, one that does not parse or has no row by its text, be it
-- empty, and one that has no value by nothing. So no message is lost or doubled, also where inserts
-- fail twice; and if the commit was made, it is of all messages of the batch, else of none.
pub each_batch-total :
    (w : EventRow → ℕ) (d : String → ℕ) (s : Services) (messages : List (Option String))
    (p p' : Pipeline)
    → each_batch s messages p ≡ (p', ended)
    → (total w d p' ≡ total w d p + sum_worth w d s messages)
      × (p'.committed ≡ p.committed + moved s.commit (length messages))
each_batch-total w d s messages p p' h =
    subst
      (λ (r : Pipeline × Ending).
        Comes w d s (sum_worth w d s messages) (length messages) p r.0 r.1)
      h (each_batch-Comes w d s messages p)
