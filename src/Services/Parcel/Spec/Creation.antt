-- ===== src/Services/Parcel/Spec/Creation.antt =====
-- `ParcelService.create_from_dto` against its specification.
use parcel_delivery_api.Base.{
  ◌^◌, ◌≤◌, ◌<◌, ◌≡◌, ◌⊎◌, refl, sym, ap, ◌∙◌, inl, inr, ℕ, String, Bool, true, false, Option, none,
  some, List, [], ◌∷◌, arith, ltb, ltb→lt, ltb→le, ◌&&◌, not, ◌==◌, Bool-cases, Option-cases,
  if◌then◌else◌, eq_iff,
}
use mathlib.Core.Bool.{true≢false}
use parcel_delivery_api.Base.Rows.{none_of, count}
use parcel_delivery_api.Base.Rows.Members.{Has-none_of}
use parcel_delivery_api.Base.Rows.Bag.{bag_of, units}
use parcel_delivery_api.Core.Exceptions.{Failure}
use parcel_delivery_api.Core.Action.{Result, ok, raised}
use parcel_delivery_api.Core.Settings.{Settings}
use parcel_delivery_api.Core.Decimal.{Decimal, rounded, le_zero, negative_value}
use parcel_delivery_api.Core.Text.Search.{text_length}
use parcel_delivery_api.Db.Sql.{Sql}
use parcel_delivery_api.Models.User.{User}
use parcel_delivery_api.Models.Parcel.{
  Parcel, columns, texts_fit, decimals, fits, optional_fits, references_user,
}
use parcel_delivery_api.Models.Parcel.Stored.{numeric-some}
use parcel_delivery_api.Models.Database.{Database}
use parcel_delivery_api.Services.Parcel.{ParcelCreate, unknown_type, new_parcel, create_from_dto}
use parcel_delivery_api.Services.Parcel.KnownType.{IsKnown, unknown_type-IsKnown}
use parcel_delivery_api.Services.Parcel.Ownership.{create_branches, accepted}
use parcel_delivery_api.Services.Parcel.Spec.{row_of, IsTooLarge, IsRefused, Uncreated}

pub count-pos : (p : Parcel → Bool) (xs : List Parcel) → none_of p xs ≡ false → 1 ≤ count p xs
count-pos p [] h = absurd (true≢false h)
count-pos p (x ∷ xs) h = ground (arith, count-pos p xs)

too_long : (t : String) (limit : ℕ) → fits limit t ≡ false → limit < text_length t
too_long t limit h = ground arith

user_too_long :
    (o : Option String)
    → optional_fits 36 o ≡ false
    → (user : String) × (o ≡ some user) × (36 < text_length user)
user_too_long none h = absurd (true≢false h)
user_too_long (some user) h = (user, refl, too_long user 36 h)

one_of_five :
    (a b c d e : Bool)
    → (a && (b && (c && (d && e)))) ≡ false
    → (a ≡ false) ⊎ ((b ≡ false) ⊎ ((c ≡ false) ⊎ ((d ≡ false) ⊎ (e ≡ false))))
one_of_five a b c d e h = ground arith

one_of_six :
    (a b c d e : Bool)
    → (a && (b && (c && (d && (e && true))))) ≡ false
    → (a ≡ false) ⊎ ((b ≡ false) ⊎ ((c ≡ false) ⊎ ((d ≡ false) ⊎ (e ≡ false))))
one_of_six a b c d e h = ground arith

true_of_not : (b : Bool) → not b ≡ false → b ≡ true
true_of_not b h = ground arith

abbrev failure_of : Result Parcel → Failure → Failure
failure_of (raised e) d = e
failure_of (ok p) d = d

pub raised-ne : (e : Failure) (p : Parcel) → ◌≡◌ {A = Result Parcel} (raised e) (ok p) → ⊥
raised-ne e p h = ground (arith, h)

same_failure : (r : Result Parcel) (e e' : Failure) → r ≡ raised e → r ≡ raised e' → e ≡ e'
same_failure r e e' h h' = sym (ap (λ q. failure_of q e) h) ∙ ap (λ q. failure_of q e) h'

module _ (sql : Sql) (settings : Settings) where
  open sql use {rows, numeric, scalar}

  pub numeric-none :
      (precision scale : ℕ) (d : Decimal)
      → numeric precision scale d ≡ none
      → 10 ^ precision ≤ rounded d scale
  numeric-none precision scale d h = elim (Bool-cases (ltb (rounded d scale) (10 ^ precision))) [
    | inl e ↦ absurd (
        ground (
          arith,
          h,
          sql.numeric_stored precision scale d (ltb→lt (rounded d scale) (10 ^ precision) e),
        ))
    | inr e ↦ ltb→le (rounded d scale) (10 ^ precision) e
  ]

  -- What the columns hold of a new parcel is the row of its payload.
  pub columns-row_of :
      (dto : ParcelCreate) (owner id : String) (p : Parcel)
      → columns sql (new_parcel sql settings dto owner id) ≡ some p
      → p ≡ row_of settings dto owner id
  unfolding columns
  columns-row_of dto owner id p h = elim (Option-cases (numeric 10 3 dto.weight_kg)) [
    | inl e ↦ absurd (ground (arith, e))
    | inr (w, e) ↦ elim (Option-cases (numeric 12 2 dto.declared_value_usd)) [
      | inl e' ↦ absurd (ground (arith, e, e'))
      | inr (v, e') ↦
          let we = (numeric-some sql 10 3 dto.weight_kg w e).0 in
          let ve = (numeric-some sql 12 2 dto.declared_value_usd v e').0 in
          let same : p ≡ record (new_parcel sql settings dto owner id) {
            weight_kg = w;
            declared_value_usd = v;
          } =
            ground (arith, e, e') in
          same ∙ rw (we, ve) refl
    ]
  ]

  unknown_user :
      (owner : String) (users : List User)
      → references_user users (if settings.auth_required then some owner else none) ≡ false
      → (settings.auth_required ≡ true) × (none_of (λ u. u.id == owner) users ≡ true)
  unknown_user owner users h = elim (Bool-cases settings.auth_required) [
    | inl e ↦ (e, true_of_not (none_of (λ u. u.id == owner) users) (rw e at h))
    | inr e ↦ absurd (true≢false (rw e at h))
  ]

  -- Where the columns do not hold a new parcel, something of it is too large.
  texts-IsTooLarge :
      (dto : ParcelCreate) (owner id : String)
      → texts_fit (new_parcel sql settings dto owner id) ≡ false
      → IsTooLarge settings (row_of settings dto owner id) dto
  texts-IsTooLarge dto owner id h =
      let p = row_of settings dto owner id in
      elim (one_of_five (fits 36 p.id) (fits 255 p.name) (fits 255 p.session_id)
        (fits 36 p.parcel_type_id) (optional_fits 36 p.user_id) h) [
          | inl a ↦ inl (too_long p.id 36 a)
          | inr (inl a) ↦ inr (inl (too_long p.name 255 a))
          | inr (inr (inl a)) ↦ inr (inr (inl (too_long p.session_id 255 a)))
          | inr (inr (inr (inl a))) ↦ inr (inr (inr (inl (too_long p.parcel_type_id 36 a))))
          | inr (inr (inr (inr a))) ↦ inr (inr (inr (inr (inl (user_too_long p.user_id a)))))
        ]

  decimals-IsTooLarge :
      (dto : ParcelCreate) (owner id : String)
      → decimals sql (new_parcel sql settings dto owner id) ≡ none
      → IsTooLarge settings (row_of settings dto owner id) dto
  decimals-IsTooLarge dto owner id h = elim (Option-cases (numeric 10 3 dto.weight_kg)) [
    | inl e ↦ inr (inr (inr (inr (inr (inl (numeric-none 10 3 dto.weight_kg e))))))
    | inr (w, e) ↦ elim (Option-cases (numeric 12 2 dto.declared_value_usd)) [
      | inl e' ↦ inr (inr (inr (inr (inr (inr (numeric-none 12 2 dto.declared_value_usd e'))))))
      | inr (v, e') ↦ absurd (ground (arith, e, e', h))
    ]
  ]

  columns-IsTooLarge :
      (dto : ParcelCreate) (owner id : String)
      → columns sql (new_parcel sql settings dto owner id) ≡ none
      → IsTooLarge settings (row_of settings dto owner id) dto
  unfolding columns
  columns-IsTooLarge dto owner id h =
      elim (Bool-cases (texts_fit (new_parcel sql settings dto owner id))) [
        | inl e ↦ decimals-IsTooLarge dto owner id (rw e at h)
        | inr e ↦ texts-IsTooLarge dto owner id e
      ]

  IsKnown-none_of :
      (dto : ParcelCreate) (s : Database sql)
      → IsKnown (rows s.parcel_types) dto.parcel_type_id
      → none_of (λ t. t.id == dto.parcel_type_id) (rows s.parcel_types) ≡ false
  IsKnown-none_of dto s (t, m, same, _) =
      Has-none_of (λ x. x.id == dto.parcel_type_id) (rows s.parcel_types) t m
        ((eq_iff t.id dto.parcel_type_id).1 same)

  -- Where the constraints refuse the row of a payload with a known type, one of them is broken.
  accepted-IsRefused :
      (dto : ParcelCreate) (owner id : String) (s : Database sql)
      → none_of (λ t. t.id == dto.parcel_type_id) (rows s.parcel_types) ≡ false
      → accepted sql settings s (row_of settings dto owner id) ≡ false
      → IsRefused settings
          (rows s.users)
          (rows s.parcel_types)
          (row_of settings dto owner id)
          owner
          (bag_of (rows s.parcels))
  unfolding units
  accepted-IsRefused dto owner id s k h =
      let p = row_of settings dto owner id in
      elim (one_of_six (none_of (λ q. q.id == id) (rows s.parcels))
        (not (none_of (λ t. t.id == dto.parcel_type_id) (rows s.parcel_types)))
        (references_user (rows s.users) p.user_id) (not (le_zero p.weight_kg))
        (not (negative_value p.declared_value_usd)) h) [
          | inl a ↦ inl (count-pos (λ q. q.id == id) (rows s.parcels) a)
          | inr (inl a) ↦ absurd (true≢false (sym (ap not k) ∙ a))
          | inr (inr (inl a)) ↦ inr (inr (inr (unknown_user owner (rows s.users) a)))
          | inr (inr (inr (inl a))) ↦ inr (inl (true_of_not (le_zero p.weight_kg) a))
          | inr (inr (inr (inr a))) ↦
              inr (inr (inl (true_of_not (negative_value p.declared_value_usd) a)))
        ]

  -- Each failure of `create_from_dto` has a cause that the specification names.
  pub create-Uncreated :
      (dto : ParcelCreate) (owner id : String) (s s' : Database sql) (e : Failure)
      → create_from_dto sql settings dto owner id s ≡ (raised e, s')
      → Uncreated settings
          (rows s.users)
          (rows s.parcel_types)
          dto
          owner
          id
          (bag_of (rows s.parcels))
          e
  create-Uncreated dto owner id s s' e h =
      let (unknown, light, no_columns, refused, created) =
        create_branches sql settings dto owner id s in
      let r = (create_from_dto sql settings dto owner id s).0 in
      let failed : r ≡ raised e = ap (λ q. q.0) h in
      let (known, not_unknown) = unknown_type-IsKnown sql s.parcel_types dto.parcel_type_id in
      let np = new_parcel sql settings dto owner id in
      elim (Bool-cases (unknown_type (scalar (λ t. t.id == dto.parcel_type_id) s.parcel_types))) [
        | inl u ↦ inl (
          same_failure r e _ failed (ap (λ q. q.0) (unknown u)),
          λ k. true≢false (sym u ∙ not_unknown k),
        )
        | inr u ↦ elim (Bool-cases (le_zero dto.weight_kg)) [
          | inl l ↦ inr (inl (same_failure r e _ failed (ap (λ q. q.0) (light u l)), known u, l))
          | inr l ↦ elim (Option-cases (columns sql np)) [
            | inl c ↦ inr (
                inr (
                  inl (
                    same_failure r e _ failed (ap (λ q. q.0) (no_columns u l c)),
                    known u,
                    l,
                    columns-IsTooLarge dto owner id c,
                  )))
            | inr (p, c) ↦ elim (Bool-cases (accepted sql settings s p)) [
              | inl a ↦ absurd (raised-ne e p (sym failed ∙ ap (λ q. q.0) (created p u l c a)))
              | inr a ↦ inr (
                  inr (
                    inr (
                      same_failure r e _ failed (ap (λ q. q.0) (refused p u l c a)),
                      known u,
                      l,
                      accepted-IsRefused dto owner id s (IsKnown-none_of dto s (known u))
                          (rw (columns-row_of dto owner id p c) at a),
                    )))
            ]
          ]
        ]
      ]
