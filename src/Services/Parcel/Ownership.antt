-- ===== src/Services/Parcel/Ownership.antt =====
-- `ParcelService.create_from_dto` and `get_owned`: who gets a parcel.
use parcel_delivery_api.Base.{
  ◌≡◌, sym, ◌≢◌, inl, inr, String, Bool, true, false, none, some, ◌==◌, arith, eq_iff, eq_refl,
  Option-cases, eq-false_of_ne,
}
use parcel_delivery_api.Base.Rows.{Has, none_of}
use parcel_delivery_api.Core.Exceptions.{
  Failure, business_error, unauthorized_error, integrity_error, data_error,
}
use parcel_delivery_api.Core.Action.{Result, ok, raised}
use parcel_delivery_api.Core.Settings.{Settings}
use parcel_delivery_api.Core.Decimal.{le_zero}
use parcel_delivery_api.Db.Sql.{Sql}
use parcel_delivery_api.Db.Laws.{scalar-add, scalar-true, scalar-Has}
use parcel_delivery_api.Models.Parcel.{Parcel, accepts_parcel, columns}
use parcel_delivery_api.Models.Database.{Database}
use parcel_delivery_api.Services.Parcel.{
  ParcelCreate, has_id, owned_by, unknown_type, new_parcel, commit_new, create_from_dto, get_owned,
}

module _ (sql : Sql) (settings : Settings) where
  open sql use {rows, scalar, add}

  abbrev pub after_creation : Database sql → Parcel → Database sql
  after_creation s p = record s { parcels = add p s.parcels }

  abbrev pub accepted : Database sql → Parcel → Bool
  accepted s p = accepts_parcel (rows s.users) (rows s.parcel_types) (rows s.parcels) p

  -- The columns that `columns` rounds are not those that identify the parcel and its owner.
  pub columns-keys :
      (p q : Parcel)
      → columns sql p ≡ some q
      → (q.id ≡ p.id) × (q.user_id ≡ p.user_id) × (q.session_id ≡ p.session_id)
  unfolding columns
  columns-keys p q h = ground arith

  pub owned_by-new :
      (dto : ParcelCreate) (owner id who : String) (q : Parcel)
      → columns sql (new_parcel sql settings dto owner id) ≡ some q
      → owned_by settings who q ≡ (owner == who)
  unfolding owned_by
  owned_by-new dto owner id who q h =
      let (a, b, c) = columns-keys (new_parcel sql settings dto owner id) q h in
      ground (arith, a, b, c)

  pub accepted-fresh :
      (s : Database sql) (p : Parcel)
      → accepted s p ≡ true
      → none_of (has_id p.id) (rows s.parcels) ≡ true
  accepted-fresh s p h = ground arith

  -- What `create_from_dto` does where it returns a parcel.
  pub create-inverse :
      (dto : ParcelCreate) (owner id : String) (s s' : Database sql) (p : Parcel)
      → create_from_dto sql settings dto owner id s ≡ (ok p, s')
      → (columns sql (new_parcel sql settings dto owner id) ≡ some p)
        × (accepted s p ≡ true)
        × (s' ≡ after_creation s p)
  unfolding create_from_dto commit_new
  create-inverse dto owner id s s' p h = ground arith

  -- A parcel that `create_from_dto` returned is what `get_owned` then returns to its owner, and
  -- anybody else gets the failure that the API answers with 403.
  pub create_then_get :
      (dto : ParcelCreate) (owner id : String) (s s' : Database sql) (p : Parcel)
      → create_from_dto sql settings dto owner id s ≡ (ok p, s')
      → (get_owned sql settings id owner s' ≡ (ok p, s'))
        × ((other : String)
            → other ≢ owner
            → get_owned sql settings id other s'
              ≡ (raised (unauthorized_error "Parcel not found"), s'))
  unfolding get_owned
  create_then_get dto owner id s s' p h =
      let (c, a, e) = create-inverse dto owner id s s' p h in
      let (i, _, _) = columns-keys (new_parcel sql settings dto owner id) p c in
      let fresh = rw i at (accepted-fresh s p a) in
      let found = scalar-add sql (has_id id) p s.parcels (rw i (eq_refl id)) fresh in
      let owns = λ (who : String). owned_by-new dto owner id who p c in
      (
        rw e (ground (arith, found, owns owner, eq_refl owner)),
        λ other ne.
            rw e (ground (arith, found, owns other, eq-false_of_ne owner other (λ k. ne (sym k)))),
      )

  -- Whatever `create_from_dto` raises, the database is as it was.
  pub create_failed_unchanged :
      (dto : ParcelCreate) (owner id : String) (s s' : Database sql) (e : Failure)
      → create_from_dto sql settings dto owner id s ≡ (raised e, s')
      → s' ≡ s
  unfolding create_from_dto commit_new
  create_failed_unchanged dto owner id s s' e h = ground arith

  -- `create_from_dto` on each branch, by the first check that fails: the type exists, the weight is
  -- positive, the columns hold the values, and the constraints of the table accept the row. It
  -- succeeds where none fails.
  pub create_branches :
      (dto : ParcelCreate) (owner id : String) (s : Database sql)
      → let t = scalar (λ t. t.id == dto.parcel_type_id) s.parcel_types in
        let q = columns sql (new_parcel sql settings dto owner id) in
        let r = create_from_dto sql settings dto owner id s in
        (unknown_type t ≡ true → r ≡ (raised (business_error "Unknown parcel type"), s))
        × (unknown_type t ≡ false
            → le_zero dto.weight_kg ≡ true
            → r ≡ (raised (business_error "Weight must be positive"), s))
        × (unknown_type t ≡ false
            → le_zero dto.weight_kg ≡ false
            → q ≡ none
            → r ≡ (raised data_error, s))
        × ((p : Parcel)
            → unknown_type t ≡ false
            → le_zero dto.weight_kg ≡ false
            → q ≡ some p
            → accepted s p ≡ false
            → r ≡ (raised integrity_error, s))
        × ((p : Parcel)
            → unknown_type t ≡ false
            → le_zero dto.weight_kg ≡ false
            → q ≡ some p
            → accepted s p ≡ true
            → r ≡ (ok p, after_creation s p))
  unfolding create_from_dto commit_new
  create_branches dto owner id s = (
    λ a. ground (arith, a),
    λ a b. ground (arith, a, b),
    λ a b c. ground (arith, a, b, c),
    λ p a b c d. ground (arith, a, b, c, d),
    λ p a b c d. ground (arith, a, b, c, d),
  )

  -- What `get_owned` returns is a stored parcel with the id asked for, owned by who asks; and it
  -- changes nothing, whatever it answers.
  pub get_owned_only :
      (parcel_id owner : String) (s s' : Database sql) (r : Result Parcel)
      → get_owned sql settings parcel_id owner s ≡ (r, s')
      → (s' ≡ s)
        × ((p : Parcel)
            → r ≡ ok p
            → Has p (rows s.parcels) × (p.id ≡ parcel_id) × (owned_by settings owner p ≡ true))
  unfolding get_owned
  get_owned_only parcel_id owner s s' r h =
      elim (Option-cases (scalar (has_id parcel_id) s.parcels)) [
        | inl e ↦ (ground arith, λ p k. ground arith)
        | inr (q, e) ↦ (
          ground arith,
          λ p k.
              let same : q ≡ p = ground arith in
              let owns : owned_by settings owner p ≡ true = ground arith in
              (
                rw (sym same) (scalar-Has sql (has_id parcel_id) s.parcels q e),
                rw (sym same)
                    ((eq_iff q.id parcel_id).0 (scalar-true sql (has_id parcel_id) s.parcels q e)),
                owns,
              ),
        )
      ]
