-- ===== src/Registry/Table.antt =====
-- packages/registry-service/src/store.ts: the statements of its SQL, over a table that holds the
-- rows of every tenant. A row carries its tenant's id, oldest first; a statement names the tenant
-- whose rows it may touch, as each of the store's does.
pub mod Views
pub mod Local
use toqar.Common.{String, Bool, true, List, [], ◌∷◌, ◌++◌, ◌&&◌, ◌==◌, if◌then◌else◌, map, filter}

abbrev pub Rows : Type 0 → Type 0
Rows A = List (String × A)

-- `ORDER BY … DESC`, of rows in the order in which they were written.
abbrev pub reversed : {A : Type 0} → List A → List A → List A
reversed [] out = out
reversed (a ∷ as') out = reversed as' (a ∷ out)

abbrev pub newest_first : {A : Type 0} → List A → List A
newest_first rows = reversed rows []

module _ {A : Type 0} where
  -- `SELECT … WHERE tenant_id = t AND …`.
  unfoldable pub select : String → (A → Bool) → Rows A → List A
  select t p [] = []
  select t p ((u, a) ∷ rows) =
      let rest = select t p rows in if (u == t) && p a then a ∷ rest else rest

  -- `INSERT`.
  unfoldable pub insert : String → A → Rows A → Rows A
  insert t a rows = rows ++ (t, a) ∷ []

  -- `UPDATE … SET … WHERE tenant_id = t AND …`.
  unfoldable pub update : String → (A → Bool) → (A → A) → Rows A → Rows A
  update t p f [] = []
  update t p f ((u, a) ∷ rows) = (u, if (u == t) && p a then f a else a) ∷ update t p f rows

  -- `INSERT … ON CONFLICT (tenant_id, …) DO UPDATE SET …`: `p` finds the row with the same key.
  unfoldable pub upsert : String → (A → Bool) → A → (A → A) → Rows A → Rows A
  upsert t p fresh f [] = (t, fresh) ∷ []
  upsert t p fresh f ((u, a) ∷ rows) =
      if (u == t) && p a then (u, f a) ∷ rows else (u, a) ∷ upsert t p fresh f rows

  -- The rows of one tenant, and what the statements are on them.
  unfoldable pub view : String → Rows A → List A
  view t [] = []
  view t ((u, a) ∷ rows) = let rest = view t rows in if u == t then a ∷ rest else rest

  unfoldable pub update_all : (A → Bool) → (A → A) → List A → List A
  update_all p f [] = []
  update_all p f (a ∷ as') = (if p a then f a else a) ∷ update_all p f as'

  unfoldable pub put : (A → Bool) → A → (A → A) → List A → List A
  put p fresh f [] = fresh ∷ []
  put p fresh f (a ∷ as') = if p a then f a ∷ as' else a ∷ put p fresh f as'
