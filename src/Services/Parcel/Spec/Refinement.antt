-- ===== src/Services/Parcel/Spec/Refinement.antt =====
-- The parcel service does what its specification allows.
use parcel_delivery_api.Base.{
  ℕ, ◌^◌, ◌<◌, ◌≤◌, ◌≡◌, ◌⊎◌, refl, sym, ap, ◌∙◌, inl, inr, String, Bool, true, false, some, List,
  [], ◌∷◌, arith, eq_iff, Option-cases, Bool-cases, ◌==◌,
}
use mathlib.Core.Bool.{true≢false}
use parcel_delivery_api.Base.Rows.{Distinct, none_of}
use parcel_delivery_api.Base.Rows.Members.{All-of_Has}
use parcel_delivery_api.Base.Rows.Counts.{none_of-count}
use parcel_delivery_api.Base.Rows.Bag.{
  bag_of, units, put, change, put-bag_of, change-bag_of, IsIn-bag_of,
}
use mathlib.Core.Quot
use parcel_delivery_api.Core.Exceptions.{Failure, integrity_error, data_error}
use parcel_delivery_api.Core.Action.{Result, ok, raised}
use parcel_delivery_api.Core.Settings.{Settings}
use parcel_delivery_api.Core.Decimal.{Decimal, rounded, at_places, negative_value, le_zero}
use parcel_delivery_api.Db.Sql.{Sql}
use parcel_delivery_api.Db.Laws.{
  count-add, Distinct-add, Distinct-update, scalar-none, scalar-Has, scalar-true,
}
use parcel_delivery_api.Models.Parcel.{Parcel}
use parcel_delivery_api.Models.Parcel.Stored.{numeric-some}
use parcel_delivery_api.Models.Database.{Database}
use parcel_delivery_api.Services.Parcel.{
  ParcelCreate, ParcelFilterParams, has_id, owned_by, conditions, set_cost, stored_cost, new_parcel,
  unknown_type, create_from_dto, get_owned, list_owned, set_delivery_cost,
}
use parcel_delivery_api.Services.Parcel.KnownType.{unknown_type-IsKnown}
use parcel_delivery_api.Services.Parcel.Ownership.{
  create-inverse, create_branches, columns-keys, accepted-fresh, create_failed_unchanged,
  get_owned_only,
}
use parcel_delivery_api.Services.Parcel.Listing.{list_owned_page}
use parcel_delivery_api.Services.Parcel.Spec.{
  Operation, creation, reading, listing, pricing, perform, perform_all, view, Creates, Reads, Lists,
  Prices, Allowed, AllowedHistory,
}
use parcel_delivery_api.Services.Parcel.Spec.Meaning.{owned_by-Belongs, conditions-Wanted}
use parcel_delivery_api.Services.Parcel.Spec.Creation.{
  columns-row_of, numeric-none, create-Uncreated, raised-ne,
}

module _ (sql : Sql) (settings : Settings) where
  open sql use {Table, rows, add, update, scalar}

  abbrev pub Keyed : Database sql → Type 0
  Keyed s = Distinct (λ p. p.id) (rows s.parcels)

  -- Wherever the engine puts a new row, the bag is the same.
  bag-add : (p : Parcel) (t : Table Parcel) → bag_of (rows (add p t)) ≡ put p (bag_of (rows t))
  bag-add p t = Quot.sound (λ q. ground (arith, count-add sql q p t)) ∙ sym (put-bag_of p (rows t))

  bag-update :
      (test : Parcel → Bool) (f : Parcel → Parcel) (t : Table Parcel)
      → bag_of (rows (update test f t)) ≡ change test f (bag_of (rows t))
  bag-update test f t = ap bag_of (sql.update_lem test f t) ∙ sym (change-bag_of test f (rows t))

  units-zero :
      (p q : Parcel → Bool) (xs : List Parcel)
      → ((x : Parcel) → q x ≡ true → p x ≡ true)
      → none_of p xs ≡ true
      → units q (bag_of xs) ≡ 0
  unfolding units
  units-zero p q xs h n = none_of-count p q xs h n

  -- Neither the users nor the parcel types change.
  pub record SameReferences (s s' : Database sql) : Type 0 where
    pub users : s'.users ≡ s.users
    pub types : s'.parcel_types ≡ s.parcel_types

  same_SameReferences : (s s' : Database sql) → s' ≡ s → SameReferences s s'
  same_SameReferences s s' e = record {
    users = ap (λ x. x.users) e;
    types = ap (λ x. x.parcel_types) e;
  }

  -- Where a parcel was created, its type is known and its weight positive.
  created_checks :
      (dto : ParcelCreate) (owner id : String) (s s' : Database sql) (p : Parcel)
      → create_from_dto sql settings dto owner id s ≡ (ok p, s')
      → (unknown_type (scalar (λ t. t.id == dto.parcel_type_id) s.parcel_types) ≡ false)
        × (le_zero dto.weight_kg ≡ false)
  created_checks dto owner id s s' p h =
      let (unknown, light, _, _, _) = create_branches sql settings dto owner id s in
      elim (Bool-cases (unknown_type (scalar (λ t. t.id == dto.parcel_type_id) s.parcel_types))) [
        | inl u ↦ absurd (raised-ne _ p (ap (λ q. q.0) (sym (unknown u) ∙ h)))
        | inr u ↦ elim (Bool-cases (le_zero dto.weight_kg)) [
          | inl l ↦ absurd (raised-ne _ p (ap (λ q. q.0) (sym (light u l) ∙ h)))
          | inr l ↦ (u, l)
        ]
      ]

  create-Creates :
      (dto : ParcelCreate) (owner id : String) (s s' : Database sql) (r : Result Parcel)
      → Keyed s
      → create_from_dto sql settings dto owner id s ≡ (r, s')
      → Creates settings
          (rows s.users)
          (rows s.parcel_types)
          dto
          owner
          id
          (view sql s)
          r
          (view sql s')
        × Keyed s'
        × SameReferences s s'
  create-Creates dto owner id s s' (raised e) d h =
      let same = create_failed_unchanged sql settings dto owner id s s' e h in
      (
        (ap (view sql) same, create-Uncreated sql settings dto owner id s s' e h),
        rw same d,
        same_SameReferences s s' same,
      )
  create-Creates dto owner id s s' (ok p) d h =
      let (c, a, e) = create-inverse sql settings dto owner id s s' p h in
      let (i, _, _) = columns-keys sql settings (new_parcel sql settings dto owner id) p c in
      let fresh = accepted-fresh sql settings s p a in
      let (u, l) = created_checks dto owner id s s' p h in
      (
        (
          units-zero (has_id id) (has_id id) (rows s.parcels) (λ x k. k) (rw i at fresh),
          ap (view sql) e ∙ bag-add p s.parcels,
          columns-row_of sql settings dto owner id p c,
          (unknown_type-IsKnown sql s.parcel_types dto.parcel_type_id).0 u,
          l,
        ),
        rw e (Distinct-add sql (λ p. p.id) p s.parcels d fresh),
        record { users = ap (λ x. x.users) e; types = ap (λ x. x.parcel_types) e },
      )

  get-Reads :
      (id owner : String) (s s' : Database sql) (r : Result Parcel)
      → get_owned sql settings id owner s ≡ (r, s')
      → (s' ≡ s) × Reads settings (rows s.users) (rows s.parcel_types) id owner (view sql s) r
  unfolding get_owned
  get-Reads id owner s s' (ok p) h =
      let (same, found) = get_owned_only sql settings id owner s s' (ok p) h in
      let (m, i, o) = found p refl in
      (same, (IsIn-bag_of p (rows s.parcels) m, i, (owned_by-Belongs settings owner p).0 o))
  get-Reads id owner s s' (raised e) h = (
    (get_owned_only sql settings id owner s s' (raised e) h).0,
    elim (Option-cases (scalar (has_id id) s.parcels)) [
      | inl k ↦ inl (
        ground (arith, k, h),
        units-zero (has_id id) (has_id id) (rows s.parcels) (λ x t. t)
            (scalar-none sql (has_id id) s.parcels k),
      )
      | inr (p, k) ↦
          let other : owned_by settings owner p ≡ false = ground (arith, k, h) in
          inr (
            ground (arith, k, h, other),
            (
              p,
              IsIn-bag_of p (rows s.parcels) (scalar-Has sql (has_id id) s.parcels p k),
              (eq_iff p.id id).0 (scalar-true sql (has_id id) s.parcels p k),
              λ b. true≢false (sym ((owned_by-Belongs settings owner p).1 b) ∙ other),
            ),
          )
    ],
  )

  list-Lists :
      (owner : String) (filters : ParcelFilterParams) (limit offset : ℕ) (s : Database sql)
      → let (r, s') = list_owned sql settings owner filters limit offset s in
        (s' ≡ s)
        × Lists settings
            (rows s.users)
            (rows s.parcel_types)
            owner
            filters
            limit
            offset
            (view sql s)
            r
  unfolding units
  list-Lists owner filters limit offset s =
      let (page, e, n, k) = list_owned_page sql settings owner filters limit offset s in
      let means = conditions-Wanted settings sql owner filters in
      rw e (
        refl,
        (
          conditions sql settings owner filters,
          means,
          refl,
          n,
          All-of_Has _ page (λ p m.
              let (h, o, t) = k p m in
              (IsIn-bag_of p (rows s.parcels) h, (means p).0 (ground (arith, o, t)))),
        ),
      )

  price-ok :
      (p : Parcel) (c d : Decimal) (s : Database sql)
      → stored_cost sql settings c ≡ ok d
      → set_delivery_cost sql settings p c s
        ≡ (ok tt, record s { parcels = update (has_id p.id) (set_cost sql settings d) s.parcels })
  unfolding set_delivery_cost
  price-ok p c d s h = ground (arith, h)

  price-raised :
      (p : Parcel) (c : Decimal) (s : Database sql) (e : Failure)
      → stored_cost sql settings c ≡ raised e
      → set_delivery_cost sql settings p c s ≡ (raised e, s)
  unfolding set_delivery_cost
  price-raised p c s e h = ground (arith, h)

  -- What the column and its CHECK make of a cost.
  stored_cost-cases :
      (c : Decimal)
      → ((10 ^ 12 ≤ rounded c 2) × (stored_cost sql settings c ≡ raised data_error))
        ⊎ (((negative_value (at_places c 2) ≡ true)
              × (stored_cost sql settings c ≡ raised integrity_error))
            ⊎ ((rounded c 2 < 10 ^ 12)
                × (negative_value (at_places c 2) ≡ false)
                × (stored_cost sql settings c ≡ ok (at_places c 2))))
  stored_cost-cases c = elim (Option-cases (sql.numeric 12 2 c)) [
    | inl e ↦ inl (numeric-none sql settings 12 2 c e, ground (arith, e))
    | inr (v, e) ↦
        let (ve, lt) = numeric-some sql 12 2 c v e in
        let held = e ∙ ap some ve in
        elim (Bool-cases (negative_value (at_places c 2))) [
          | inl n ↦ inr (inl (n, rw (stored_cost, held, n) refl))
          | inr n ↦ inr (inr (lt, n, rw (stored_cost, held, n) refl))
        ]
  ]

  price-Prices :
      (p : Parcel) (c : Decimal) (s : Database sql)
      → Keyed s
      → let (r, s') = set_delivery_cost sql settings p c s in
        Prices settings (rows s.users) (rows s.parcel_types) p c (view sql s) r (view sql s')
        × Keyed s'
        × SameReferences s s'
  price-Prices p c s d = elim (stored_cost-cases c) [
    | inl (le, k) ↦
        rw (price-raised p c s data_error k)
          ((refl, inl (refl, le)), d, same_SameReferences s s refl)
    | inr (inl (n, k)) ↦
        rw (price-raised p c s integrity_error k)
          ((refl, inr (refl, n)), d, same_SameReferences s s refl)
    | inr (inr (lt, n, k)) ↦
        let v = at_places c 2 in
        rw (price-ok p c v s k) (
          (lt, n, bag-update (has_id p.id) (set_cost sql settings v) s.parcels),
          Distinct-update sql (λ q. q.id) (has_id p.id) (set_cost sql settings v) s.parcels
              (λ q. refl) d,
          record { users = refl; types = refl },
        )
  ]

  -- Each operation on a table with distinct ids gives an answer that the specification allows, between
  -- the bags of the tables before and after it; the ids stay distinct, and users and types as they are.
  pub perform-Allowed :
      (op : Operation) (s : Database sql)
      → Keyed s
      → let (a, s') = perform sql settings op s in
        Allowed settings (rows s.users) (rows s.parcel_types) op (view sql s) a (view sql s')
        × Keyed s'
        × SameReferences s s'
  unfolding perform
  perform-Allowed (creation dto owner id) s d = create-Creates dto owner id s _ _ d refl
  perform-Allowed (reading id owner) s d =
      let (same, r) = get-Reads id owner s _ _ refl in
      ((ap (view sql) same, r), rw same d, same_SameReferences s _ same)
  perform-Allowed (listing owner filters limit offset) s d =
      let (same, r) = list-Lists owner filters limit offset s in
      ((ap (view sql) same, r), rw same d, same_SameReferences s _ same)
  perform-Allowed (pricing p c) s d = price-Prices p c s d

  -- The parcel service refines its specification: whatever creations, reads, listings and price updates
  -- follow one another on a table with distinct ids, their answers are those of a history that the
  -- specification allows, with the users and parcel types that are stored, on the bag of the table,
  -- where no order of rows exists; that history ends in the bag of the table at the end, and the ids
  -- are still distinct.
  pub service_refines :
      (ops : List Operation) (s : Database sql)
      → Keyed s
      → let (answers, s') = perform_all sql settings ops s in
        AllowedHistory settings
          (rows s.users)
          (rows s.parcel_types)
          ops
          (view sql s)
          answers
          (view sql s')
        × Keyed s'
  unfolding perform_all
  service_refines [] s d = (refl, d)
  service_refines (op ∷ ops) s d =
      let (a, d', same) = perform-Allowed op s d in
      let (h, d'') = service_refines ops (perform sql settings op s).1 d' in
      ((view sql (perform sql settings op s).1, a, rw (same.users, same.types) at h), d'')
