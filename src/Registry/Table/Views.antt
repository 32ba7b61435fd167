-- ===== src/Registry/Table/Views.antt =====
-- What a statement does to the rows of its own tenant, and that it leaves every other tenant's rows
-- alone.
use toqar.Common.{
  String, Bool, [], ◌∷◌, ◌++◌, ◌≡◌, refl, ◌==◌, if◌then◌else◌, filter, arith, eq_iff,
}
use toqar.Common.{Option, none, some, eq_refl, first, true, Bool-cases, inl, inr}
use toqar.Registry.Table.{Rows, select, insert, update, upsert, view, update_all, put}

module _ {A : Type 0} where
  pub select-view :
      (t : String) (p : A → Bool) (rows : Rows A) → select t p rows ≡ filter p (view t rows)
  unfolding select view
  select-view t p [] = refl
  select-view t p ((u, a) ∷ rows) = ground (arith, select-view t p rows)

  pub view-insert :
      (t u : String) (a : A) (rows : Rows A)
      → view t (insert u a rows) ≡ (if u == t then view t rows ++ a ∷ [] else view t rows)
  unfolding view insert
  view-insert t u a [] = ground arith
  view-insert t u a ((v, b) ∷ rows) = ground (arith, view-insert t u a rows)

  pub view-update :
      (t u : String) (p : A → Bool) (f : A → A) (rows : Rows A)
      → view t (update u p f rows) ≡ (if u == t then update_all p f (view t rows) else view t rows)
  unfolding view update update_all
  view-update t u p f [] = ground arith
  view-update t u p f ((v, b) ∷ rows) =
      ground (arith, view-update t u p f rows, eq_iff v t, eq_iff v u, eq_iff u t)

  pub view-upsert :
      (t u : String) (p : A → Bool) (fresh : A) (f : A → A) (rows : Rows A)
      → view t (upsert u p fresh f rows)
        ≡ (if u == t then put p fresh f (view t rows) else view t rows)
  unfolding view upsert put
  view-upsert t u p fresh f [] = ground arith
  view-upsert t u p fresh f ((v, b) ∷ rows) =
      ground (arith, view-upsert t u p fresh f rows, eq_iff v t, eq_iff v u, eq_iff u t)

  -- The row that an upsert leaves under its key.
  abbrev pub kept : A → (A → A) → Option A → A
  kept fresh f none = fresh
  kept fresh f (some a) = f a

  pub select-upsert :
      (t : String) (p : A → Bool) (fresh : A) (f : A → A) (rows : Rows A)
      → p fresh ≡ true
      → ((a : A) → p a ≡ true → p (f a) ≡ true)
      → first (select t p (upsert t p fresh f rows)) ≡ some (kept fresh f (first (select t p rows)))
  unfolding select upsert
  select-upsert t p fresh f [] h k = ground (arith, eq_refl t)
  select-upsert t p fresh f ((u, a) ∷ rows) h k = elim (Bool-cases (p a)) [
    | inl yes' ↦ ground (arith, select-upsert t p fresh f rows, k a, eq_refl t, eq_iff u t)
    | inr no' ↦ ground (arith, select-upsert t p fresh f rows, eq_refl t)
  ]
