-- ===== src/Pipeline/Consumer.antt =====
-- packages/pipeline/src/redpanda.ts: `startEventsConsumer`'s handler of a batch, with the residency
-- router. Whether an insert succeeds is an argument, by the number of the insert; so is whether the
-- dead-letter topic takes the entries, and what the commit comes to. An insert that failed is taken to
-- have written nothing.
pub mod Delivery
mod Tests
use toqar.Common.{
  ℕ, suc, ◌+◌, String, Bool, true, false, Option, none, some, List, [], ◌∷◌, ◌++◌, map, ◌==◌, ◌&&◌,
  if◌then◌else◌, length,
}
use toqar.Json.{Value, str, prop}
use toqar.Pipeline.Transform.{Formats, EventRow, to_row}

pub data Region : Type 0 where
  us eu : Region

pub data Dead : Type 0 where
  unmappable unparsable : String → Dead
  insert_failed : EventRow → Dead

-- What `commitOffsetsIfNecessary` does: it commits, it finds no commit due, or it throws.
pub data Commit : Type 0 where
  commits leaves_open fails : Commit

-- How the handler ends: its writes are done, or one of the last two throws. The heartbeat that follows
-- them is left out.
pub data Ending : Type 0 where
  ended dead_letter_failed commit_failed : Ending

pub record Services : Type 0 where
  pub formats : Formats
  pub parse_json : String → Option Value
  pub has_eu : Bool
  pub inserts : ℕ → Bool
  pub takes_dead : List Dead → Bool
  pub commit : Commit

pub record Pipeline : Type 0 where
  pub us_rows : List EventRow
  pub eu_rows : List EventRow
  pub dead_letters : List Dead
  pub unmapped : ℕ
  pub dead_lettered : ℕ
  pub insert_calls : ℕ
  -- The messages whose offsets are committed.
  pub committed : ℕ

-- The rows of a batch by region, and what goes to the dead-letter topic. A `Map` keeps the regions in
-- the order of their first row; which region is written first is left out.
pub record Sorted : Type 0 where
  pub us_bucket : List EventRow
  pub eu_bucket : List EventRow
  pub dead : List Dead
  pub failures : ℕ

abbrev pub residency_of : Option Value → String
residency_of (some (str s)) = s
residency_of v = "us"

abbrev pub place : Region → EventRow → Sorted → Sorted
place us r b = record b { us_bucket = b.us_bucket ++ r ∷ [] }
place eu r b = record b { eu_bucket = b.eu_bucket ++ r ∷ [] }

abbrev pub bury : Dead → Sorted → Sorted
bury d b = record b { dead = b.dead ++ d ∷ []; failures = suc b.failures }

abbrev pub stored : Region → List EventRow → Pipeline → Pipeline
stored us rows p = record p { us_rows = p.us_rows ++ rows }
stored eu rows p = record p { eu_rows = p.eu_rows ++ rows }

abbrev pub called : Pipeline → Pipeline
called p = record p { insert_calls = suc p.insert_calls }

module _ (s : Services) where
  -- `createResidencyRouter`.
  unfoldable pub route : String → Region
  route residency = if (residency == "eu") && s.has_eu then eu else us

  abbrev pub sort_row : String → Value → Option EventRow → Sorted → Sorted
  sort_row raw v none b = bury (unmappable raw) b
  sort_row raw v (some r) b = place (route (residency_of (prop "residency" v))) r b

  abbrev pub sort_value : String → Option Value → Sorted → Sorted
  sort_value raw none b = bury (unparsable raw) b
  sort_value raw (some v) b = sort_row raw v (to_row s.formats v) b

  -- A message with no value is skipped; an empty one has the empty text.
  abbrev pub sort_message : Option String → Sorted → Sorted
  sort_message none b = b
  sort_message (some raw) b = sort_value raw (s.parse_json raw) b

  unfoldable pub sort_all : List (Option String) → Sorted → Sorted
  sort_all [] b = b
  sort_all (m ∷ ms) b = sort_all ms (sort_message m b)

  -- `insertRows`, tried twice; the rows that could not be written come back.
  unfoldable pub insert_rows : Region → List EventRow → Pipeline → Pipeline × List EventRow
  insert_rows region [] p = (p, [])
  insert_rows region (r ∷ rs) p =
      if s.inserts p.insert_calls
      then (stored region (r ∷ rs) (called p), [])
      else if s.inserts (suc p.insert_calls)
      then (stored region (r ∷ rs) (called (called p)), [])
      else (called (called p), r ∷ rs)

  -- `resolveOffset` for each message, and the commit.
  abbrev pub commit_batch : ℕ → Pipeline → Commit → Pipeline × Ending
  commit_batch messages p commits = (record p { committed = p.committed + messages }, ended)
  commit_batch messages p leaves_open = (p, ended)
  commit_batch messages p fails = (p, commit_failed)

  abbrev pub lettered : List Dead → Pipeline → Pipeline
  lettered ds p = record p {
    dead_letters = p.dead_letters ++ ds;
    dead_lettered = p.dead_lettered + length ds;
  }

  -- `toDlq` and the commit. A failed write to the dead-letter topic throws before the commit: what was
  -- done until then stays done. So does what the dead-letter topic took, where the commit throws.
  abbrev pub finish : ℕ → List Dead → Pipeline → Pipeline × Ending
  finish messages [] p = commit_batch messages p s.commit
  finish messages (d ∷ ds) p =
      if s.takes_dead (d ∷ ds)
      then commit_batch messages (lettered (d ∷ ds) p) s.commit
      else (p, dead_letter_failed)

  unfoldable pub each_batch : List (Option String) → Pipeline → Pipeline × Ending
  each_batch messages p =
      let b =
        sort_all messages (record { us_bucket = []; eu_bucket = []; dead = []; failures = 0 }) in
      let (p₁, lost_us) = insert_rows us b.us_bucket p in
      let (p₂, lost_eu) = insert_rows eu b.eu_bucket p₁ in
      finish (length messages) (b.dead ++ (map insert_failed lost_us ++ map insert_failed lost_eu))
        (record p₂ { unmapped = p₂.unmapped + b.failures })
