-- ===== src/Registry/Store/Tokens/Resolution.antt =====
-- packages/registry-service/src/store.ts: what `resolveToken` answers after a token was issued or
-- revoked.
use mathlib.Core.Path.{subst}
use toqar.Common.{
  first, String, false, Option, none, some, [], ◌∷◌, ◌≡◌, refl, ◌==◌, ◌&&◌, not, if◌then◌else◌,
  arith, inl, inr, eq_iff, Bool-cases, Option-cases, All,
}
use toqar.Json.{Value}
use toqar.Registry.Inputs.{parse_scope}
use toqar.Registry.Table.{Rows, select, insert, update}
use toqar.Registry.Store.{Db, TokenRow, committed, audit}
use toqar.Registry.Store.Tokens.{
  Uuids, new_token, live_token, resolve_token, issue_token, revoke_token, write_token, scope_of,
  revoked_row,
}

-- The unique index on the hashes of the tokens.
abbrev pub UniqueHashes : Rows TokenRow → Type 0
UniqueHashes [] = Unit {0}
UniqueHashes ((u, r) ∷ rows) =
    All (λ q. (q.1.token_hash == r.token_hash) ≡ false) rows × UniqueHashes rows

-- What is left of an answer once the tenant's token with this id is revoked.
abbrev pub withdrawn : String → String → Option (String × TokenRow) → Option (String × String)
withdrawn tenant token_id none = none
withdrawn tenant token_id (some (u, r)) =
    if (u == tenant) && (r.token_id == token_id) then none else some (u, r.scope)

pub live_token-insert :
    (t : String) (r : TokenRow) (rows : Rows TokenRow) (h : String)
    → live_token r.token_hash rows ≡ none
    → r.revoked ≡ false
    → live_token h (insert t r rows)
      ≡ (if r.token_hash == h then some (t, r) else live_token h rows)
unfolding live_token insert
live_token-insert t r [] h free live = ground arith
live_token-insert t r ((u, q) ∷ rows) h free live = ground (
  arith,
  live_token-insert t r rows h,
  eq_iff q.token_hash r.token_hash,
  eq_iff q.token_hash h,
  eq_iff r.token_hash h,
)

live_token-absent :
    (h : String) (rows : Rows TokenRow)
    → All (λ q. (q.1.token_hash == h) ≡ false) rows
    → live_token h rows ≡ none
unfolding live_token
live_token-absent h [] a = refl
live_token-absent h ((u, r) ∷ rows) (a, as') = ground (arith, live_token-absent h rows as')

live_token-revoke :
    (h t id : String) (rows : Rows TokenRow)
    → UniqueHashes rows
    → scope_of (live_token h (update t (λ q. q.token_id == id) revoked_row rows))
      ≡ withdrawn t id (live_token h rows)
unfolding live_token update
live_token-revoke h t id [] v = refl
live_token-revoke h t id ((u, r) ∷ rows) (v, vs) = elim (Bool-cases (r.token_hash == h)) [
  | inl same ↦
      let here : r.token_hash ≡ h = (eq_iff r.token_hash h).0 same in
      ground (
        arith,
        live_token-revoke h t id rows vs,
        live_token-absent h rows
            (subst (λ x. All (λ q. (q.1.token_hash == x) ≡ false) rows) here v),
      )
  | inr other ↦ ground (arith, live_token-revoke h t id rows vs)
]

not_found :
    (h t id : String) (rows : Rows TokenRow)
    → first (select t (λ r. r.token_id == id && not r.revoked) rows) ≡ none
    → scope_of (live_token h rows) ≡ withdrawn t id (live_token h rows)
unfolding live_token select
not_found h t id [] e = refl
not_found h t id ((u, r) ∷ rows) e = ground (arith, not_found h t id rows)

-- A token that was issued resolves to the tenant and the scope it was issued for, at once, and every
-- other text resolves as before. The new token's hash must not be that of a live token.
pub resolve_token-issue_token :
    (hash : String → String) (t : String) (value : Value) (a : String) (uuids : Uuids)
    (scope : String) (db : Db) (presented : String)
    → parse_scope value ≡ some scope
    → live_token (hash (new_token uuids).secret) db.tokens ≡ none
    → resolve_token hash presented (committed (issue_token hash t value a uuids) db) ≡ (
        if hash (new_token uuids).secret == hash presented
        then some (t, scope)
        else resolve_token hash presented db)
unfolding resolve_token issue_token write_token audit
resolve_token-issue_token hash t value a uuids scope db presented p free = ground (
  arith,
  live_token-insert t
      (record {
        token_id = (new_token uuids).token_id;
        token_hash = hash (new_token uuids).secret;
        prefix = (new_token uuids).prefix;
        scope = scope;
        revoked = false;
      })
      db.tokens (hash presented),
)

-- Where no two tokens have one hash: after a revocation no text resolves to the revoked token of the
-- tenant, and every text that resolved to another token, of any tenant, still does.
pub resolve_token-revoke_token :
    (hash : String → String) (t id a : String) (db : Db) (presented : String)
    → UniqueHashes db.tokens
    → resolve_token hash presented (committed (revoke_token t id a) db)
      ≡ withdrawn t id (live_token (hash presented) db.tokens)
unfolding resolve_token revoke_token audit
resolve_token-revoke_token hash t id a db presented v =
    elim (Option-cases (first (select t (λ r. r.token_id == id && not r.revoked) db.tokens))) [
      | inl missing ↦ ground (arith, not_found (hash presented) t id db.tokens missing)
      | inr (r, found) ↦ ground (arith, live_token-revoke (hash presented) t id db.tokens v)
    ]
