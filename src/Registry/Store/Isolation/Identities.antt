-- ===== src/Registry/Store/Isolation/Identities.antt =====
-- packages/registry-service/src/store.ts: `listAudit` but for the identities, which come from one sequence
-- for all tenants and so tell of the others' writes.
use mathlib.Core.Path.{subst, fun_ext}
use toqar.Common.{ℕ, zero, suc, String, List, [], ◌∷◌, ◌≡◌, refl, sym, ap, ◌∙◌, map, take, arith}
use toqar.Registry.Table.{Rows, select, newest_first, reversed}
use toqar.Registry.Store.{AuditRow, Db, ok, Tx, read}
use toqar.Registry.Store.Settings.{any_row}
use toqar.Registry.Store.Accounts.{AuditRecord, numbered, list_audit}
use toqar.Registry.Store.Calls.{Reply, audit_list, unnumbered, blind, replying}
use toqar.Registry.Store.Isolation.{IsScoped, bind-IsScoped, pure-IsScoped}
use toqar.Registry.Store.Isolation.Accounts.{audit_page, audit_page-IsScoped}

map-take : {A B : Type 0} (f : A → B) (n : ℕ) (xs : List A) → map f (take n xs) ≡ take n (map f xs)
map-take f zero xs = refl
map-take f (suc n) [] = refl
map-take f (suc n) (x ∷ xs) = ap (λ ys. f x ∷ ys) (map-take f n xs)

map-reversed :
    {A B : Type 0} (f : A → B) (xs out : List A)
    → map f (reversed xs out) ≡ reversed (map f xs) (map f out)
map-reversed f [] out = refl
map-reversed f (x ∷ xs) out = map-reversed f xs (x ∷ out)

-- A row as a record whose identity is put to 0.
abbrev pub bare : AuditRow → AuditRecord
bare row = record { id = 0; row = row }

module _ (identity : ℕ → ℕ) (t : String) where
  select-numbered :
      (n : ℕ) (rows : Rows AuditRow)
      → map unnumbered (select t any_row (numbered identity n rows))
        ≡ map bare (select t any_row rows)
  unfolding select numbered
  select-numbered n [] = refl
  select-numbered n ((u, row) ∷ rows) = ground (arith, select-numbered (suc n) rows)

  pub page-unnumbered :
      (limit : ℕ) (db : Db)
      → map unnumbered
          (take limit (newest_first (select t any_row (numbered identity 0 db.audit_log))))
        ≡ map bare (audit_page t limit db)
  page-unnumbered limit db =
      let rows = select t any_row (numbered identity 0 db.audit_log) in
      let own = select t any_row db.audit_log in
      map-take unnumbered limit (newest_first rows)
      ∙ ap (take limit) (
          map-reversed unnumbered rows []
          ∙ ap newest_first (select-numbered 0 db.audit_log)
          ∙ sym (map-reversed bare own []))
      ∙ sym (map-take bare limit (newest_first own))

-- A method that replies, seen without identities.
abbrev pub blinded : Tx Reply → Tx Reply
blinded m = replying blind m

pub list_audit-IsScoped :
    (identity : ℕ → ℕ) (t : String) (limit : ℕ)
    → IsScoped t (blinded (replying audit_list (list_audit identity t limit)))
unfolding list_audit
list_audit-IsScoped identity t limit =
    let seen : Tx Reply =
      replying (λ rows. audit_list (map bare rows)) (read (audit_page t limit)) in
    subst (IsScoped t)
      (fun_ext
        λ db. ap (λ rows. ok (audit_list rows) db) (sym (page-unnumbered identity t limit db)))
      (bind-IsScoped t (read (audit_page t limit)) _ (audit_page-IsScoped t limit)
        λ rows. pure-IsScoped t (audit_list (map bare rows)))
