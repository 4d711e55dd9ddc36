-- ===== src/Services/Base.antt =====
-- app/services/base.py: the generic helpers, for rows that the columns hold as they are. The key and the
-- constraints of the model are parameters. (Services/Parcel has `_commit` for rows that are rounded.)
use parcel_delivery_api.Base.{
  ◌≡◌, sym, ap, ◌∙◌, String, Bool, Bool-cases, true, Option, some, List, ◌==◌, eq_refl, inl, inr,
  arith,
}
use parcel_delivery_api.Base.Rows.{Has, none_of}
use parcel_delivery_api.Base.Rows.Queries.{Has-select}
use parcel_delivery_api.Core.Exceptions.{integrity_error}
use parcel_delivery_api.Core.Action.{Action, ok, pure, commit, ◌>>◌}
use parcel_delivery_api.Db.Sql.{Sql}
use parcel_delivery_api.Db.Insert.{insert}
use parcel_delivery_api.Db.Laws.{scalar-add, Has-add}

module _ (sql : Sql) {Row : Type 0} (key : Row → String) (accepts : List Row → Row → Bool) where
  open sql use {Table, rows, scalar, scalars, add}

  -- `CRUDBase.get`
  unfoldable pub get : String → Table Row → Option Row
  get id t = scalar (λ r. key r == id) t

  -- `CRUDBase.list`, of the filters together
  unfoldable pub list : (Row → Bool) → Table Row → List Row
  list filters t = scalars filters t

  -- `CRUDBase.create`, through `_commit`
  unfoldable pub create : Row → Action (Table Row) Row
  create obj = do commit (insert sql accepts obj) integrity_error; pure obj

  -- A row that was created is read by its key, and is listed by each filter that it passes; provided
  -- that the constraints refuse a key that is taken.
  pub create-get :
      (obj row : Row) (t t' : Table Row) (filters : Row → Bool)
      → ((rs : List Row) → accepts rs obj ≡ true → none_of (λ r. key r == key obj) rs ≡ true)
      → create obj t ≡ (ok row, t')
      → filters row ≡ true
      → (row ≡ obj) × (get (key row) t' ≡ some row) × Has row (list filters t')
  unfolding get list create
  create-get obj row t t' filters unique h f = elim (Bool-cases (accepts (rows t) obj)) [
    | inl a ↦
        let same : row ≡ obj = ground (arith, h, a) in
        let stored : t' ≡ add obj t = ground (arith, h, a) in
        let found =
          scalar-add sql (λ r. key r == key obj) obj t (eq_refl (key obj)) (unique (rows t) a) in
        let passes = sym (ap filters same) ∙ f in
        let listed = Has-select filters (rows (add obj t)) obj (Has-add sql obj t) passes in
        (
          same,
          ap (λ r. get (key r) t') same ∙ ap (get (key obj)) stored ∙ found ∙ ap some (sym same),
          rw (same, stored, sql.scalars_lem) listed,
        )
    | inr a ↦ absurd (ground (arith, h, a))
  ]
