-- ===== src/Services/Parcel/KnownType.antt =====
-- The check of the parcel type in `ParcelService.create_from_dto`, as a statement about the rows.
use mathlib.Core.Bool.{true≢false}
use parcel_delivery_api.Base.{
  ◌≡◌, ◌≢◌, ◌↔◌, sym, ◌∙◌, inl, inr, String, false, List, ◌==◌, eq_iff, Option-cases,
  eq-false_of_ne, ne_of_eq-false,
}
use parcel_delivery_api.Base.Rows.{Has}
use parcel_delivery_api.Base.Rows.Members.{Has-none_of}
use parcel_delivery_api.Db.Sql.{Sql}
use parcel_delivery_api.Db.Laws.{scalar-none, scalar-Has, scalar-true}
use parcel_delivery_api.Models.ParcelType.{ParcelType}
use parcel_delivery_api.Services.Parcel.{unknown_type}

-- A stored type has the id, which is not the empty text.
abbrev pub IsKnown : List ParcelType → String → Type 0
IsKnown types id = (t : ParcelType) × Has t types × (t.id ≡ id) × (id ≢ "")

module _ (sql : Sql) (types : sql.Table ParcelType) (id : String) where
  open sql use {rows, scalar}

  -- `create_from_dto` finds a type exactly where one is known.
  pub unknown_type-IsKnown :
      (unknown_type (scalar (λ t. t.id == id) types) ≡ false) ↔ IsKnown (rows types) id
  unknown_type-IsKnown = elim (Option-cases (scalar (λ t. t.id == id) types)) [
    | inl e ↦ (
      λ h. absurd (true≢false (rw e at h)),
      λ (t, m, same, _). absurd (
          true≢false (
            sym (scalar-none sql (λ x. x.id == id) types e)
            ∙ Has-none_of (λ x. x.id == id) (rows types) t m ((eq_iff t.id id).1 same))),
    )
    | inr (t, e) ↦
        let same = (eq_iff t.id id).0 (scalar-true sql (λ x. x.id == id) types t e) in
        (
          λ h. (
            t,
            scalar-Has sql (λ x. x.id == id) types t e,
            same,
            ne_of_eq-false id "" (rw same at (rw e at h)),
          ),
          λ (_, _, _, ne). rw (e, same) (eq-false_of_ne id "" ne),
        )
  ]
