-- ===== src/Registry/Table/Local.antt =====
-- The rows of one tenant under its name: a statement of a tenant does to its rows what it does to the
-- whole table, and leaves the rows of every other tenant alone.
use toqar.Common.{
  String, Bool, false, [], ◌∷◌, ◌≡◌, refl, ◌==◌, if◌then◌else◌, arith, eq_iff, eq_refl,
}
use toqar.Registry.Table.{Rows, select, insert, update, upsert}

module _ {A : Type 0} where
  unfoldable pub keep : String → Rows A → Rows A
  keep t [] = []
  keep t ((u, a) ∷ rows) = let rest = keep t rows in if u == t then (u, a) ∷ rest else rest

  -- What a statement of tenant `t` does to a table.
  abbrev pub IsLocal : String → (Rows A → Rows A) → Type 0
  IsLocal t g =
      (rows : Rows A)
      → (keep t (g rows) ≡ g (keep t rows))
        × ((u : String) → (t == u) ≡ false → keep u (g rows) ≡ keep u rows)

  pub select-keep :
      (t : String) (p : A → Bool) (rows : Rows A) → select t p (keep t rows) ≡ select t p rows
  unfolding select keep
  select-keep t p [] = refl
  select-keep t p ((u, a) ∷ rows) = ground (arith, select-keep t p rows)

  keep-insert :
      (t : String) (a : A) (rows : Rows A) → keep t (insert t a rows) ≡ insert t a (keep t rows)
  unfolding keep insert
  keep-insert t a [] = ground (arith, eq_refl t)
  keep-insert t a ((u, b) ∷ rows) = ground (arith, keep-insert t a rows)

  keep-insert_other :
      (t : String) (a : A) (u : String)
      → (t == u) ≡ false
      → (rows : Rows A) → keep u (insert t a rows) ≡ keep u rows
  unfolding keep insert
  keep-insert_other t a u ne [] = ground arith
  keep-insert_other t a u ne ((v, b) ∷ rows) = ground (arith, keep-insert_other t a u ne rows)

  pub insert-IsLocal : (t : String) (a : A) → IsLocal t (insert t a)
  insert-IsLocal t a rows = (keep-insert t a rows, λ u ne. keep-insert_other t a u ne rows)

  keep-update :
      (t : String) (p : A → Bool) (f : A → A) (rows : Rows A)
      → keep t (update t p f rows) ≡ update t p f (keep t rows)
  unfolding keep update
  keep-update t p f [] = refl
  keep-update t p f ((u, b) ∷ rows) = ground (arith, keep-update t p f rows)

  keep-update_other :
      (t : String) (p : A → Bool) (f : A → A) (u : String)
      → (t == u) ≡ false
      → (rows : Rows A) → keep u (update t p f rows) ≡ keep u rows
  unfolding keep update
  keep-update_other t p f u ne [] = refl
  keep-update_other t p f u ne ((v, b) ∷ rows) =
      ground (arith, keep-update_other t p f u ne rows, eq_iff v t, eq_iff v u, eq_iff t u)

  pub update-IsLocal : (t : String) (p : A → Bool) (f : A → A) → IsLocal t (update t p f)
  update-IsLocal t p f rows = (keep-update t p f rows, λ u ne. keep-update_other t p f u ne rows)

  keep-upsert :
      (t : String) (p : A → Bool) (fresh : A) (f : A → A) (rows : Rows A)
      → keep t (upsert t p fresh f rows) ≡ upsert t p fresh f (keep t rows)
  unfolding keep upsert
  keep-upsert t p fresh f [] = ground (arith, eq_refl t)
  keep-upsert t p fresh f ((u, b) ∷ rows) = ground (arith, keep-upsert t p fresh f rows)

  keep-upsert_other :
      (t : String) (p : A → Bool) (fresh : A) (f : A → A) (u : String)
      → (t == u) ≡ false
      → (rows : Rows A) → keep u (upsert t p fresh f rows) ≡ keep u rows
  unfolding keep upsert
  keep-upsert_other t p fresh f u ne [] = ground arith
  keep-upsert_other t p fresh f u ne ((v, b) ∷ rows) =
      ground (arith, keep-upsert_other t p fresh f u ne rows, eq_iff v t, eq_iff v u, eq_iff t u)

  pub upsert-IsLocal :
      (t : String) (p : A → Bool) (fresh : A) (f : A → A) → IsLocal t (upsert t p fresh f)
  upsert-IsLocal t p fresh f rows =
      (keep-upsert t p fresh f rows, λ u ne. keep-upsert_other t p fresh f u ne rows)
