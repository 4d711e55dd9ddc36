-- ===== src/Migrations/Seeded.antt =====
-- What the seed migration leaves in parcel_type, and what its downgrade takes away.
use parcel_delivery_api.Base.{◌≡◌, refl, sym, ◌∙◌, inl, inr, String, false, List, [], ◌∷◌}
use parcel_delivery_api.Base.Rows.{Has, All, Distinct}
use parcel_delivery_api.Core.Action.{ok}
use parcel_delivery_api.Db.Sql.{Sql}
use parcel_delivery_api.Models.ParcelType.{ParcelType}
use parcel_delivery_api.Models.Parcel.{Parcel}
use parcel_delivery_api.Migrations.Seed.{
  defaults, is_default, values, insert_or_rename, insert_all, in_use, upgrade, downgrade,
}
use parcel_delivery_api.Migrations.Upserted.{
  Upserted-same, Upserted-insert, others, Grown, Drawn, insert_all-Grown,
}

-- The second table has the rows of the first and the missing defaults, each name once.
pub record IsSeeded (xs ys : List ParcelType) : Type 0 where
  pub stays : (r : ParcelType) → Has r xs → Has r ys
  pub has_defaults : (n : String) → Has n defaults → (r : ParcelType) × Has r ys × (r.name ≡ n)
  pub others_same : others ys ≡ others xs
  pub ids : Distinct (λ t. t.id) ys
  pub names : Distinct (λ t. t.name) ys

module _ (sql : Sql) where
  open sql use {Table, rows}

  insert_all-same :
      (vs : List ParcelType) (types : Table ParcelType)
      → Distinct (λ t. t.id) (rows types)
      → Drawn vs (rows types)
      → All (λ v. (r : ParcelType) × Has r (rows types) × (r.name ≡ v.name)) vs
      → rows (insert_all sql vs types) ≡ rows types
  insert_all-same [] types d w a = refl
  insert_all-same (v ∷ vs) types d w ((r, m, e), all_a) =
      let next = insert_or_rename sql v types in
      let same : rows next ≡ rows types =
        Upserted-same v (rows types) (rows next) r m e (Upserted-insert sql v types d w.fresh.0) in
      insert_all-same vs next (rw same d)
        (record { fresh = rw same (w.fresh.1); apart = w.apart.1 }) (rw same all_a)
      ∙ same

module _ (sql : Sql) (i j k : String) (types : sql.Table ParcelType) where
  open sql use {Table, rows, delete, delete_lem}

  abbrev drawn : List String
  drawn = i ∷ j ∷ k ∷ []

  module _ (d : Distinct (λ t. t.id) (rows types)) (n : Distinct (λ t. t.name) (rows types))
      (w : Drawn (values drawn defaults) (rows types)) where
    upgrade-Grown : Grown (values drawn defaults) (rows types) (rows (upgrade sql drawn types))
    unfolding upgrade
    upgrade-Grown =
        insert_all-Grown sql (values drawn defaults) types d n w (refl, (refl, (refl, tt)))

    -- For ids and names that are distinct, and three new ids: the seed migration keeps every row, adds a
    -- row for each default name that is missing and no other, and ids and names are distinct again.
    pub upgrade-IsSeeded : IsSeeded (rows types) (rows (upgrade sql drawn types))
    upgrade-IsSeeded =
        let g = upgrade-Grown in
        record {
          stays = g.stays;
          has_defaults = λ m h. elim h [
            | inl e ↦ let (r, k, f) = g.found _ (inl refl) in (r, k, f ∙ sym e)
            | inr (inl e) ↦ let (r, k, f) = g.found _ (inr (inl refl)) in (r, k, f ∙ sym e)
            | inr (inr (inl e)) ↦
                let (r, k, f) = g.found _ (inr (inr (inl refl))) in (r, k, f ∙ sym e)
            | inr (inr (inr e)) ↦ absurd e
          ];
          others_same = g.rest;
          ids = g.ids;
          names = g.names;
        }

    -- For ids and names that are distinct, and three new ids: where no parcel has a default type, the
    -- downgrade of the seed migration after its upgrade leaves the rows that had no default name
    -- before, in their order.
    pub downgrade-upgrade :
        (parcels : Table Parcel)
        → in_use sql parcels (upgrade sql drawn types) ≡ false
        → (t : Table ParcelType) × (downgrade sql parcels (upgrade sql drawn types) ≡ ok t)
          × (rows t ≡ others (rows types))
    unfolding downgrade
    downgrade-upgrade parcels u = (
      delete is_default (upgrade sql drawn types),
      rw (downgrade, u) refl,
      delete_lem is_default (upgrade sql drawn types) ∙ upgrade-Grown.rest,
    )

    -- For ids and names that are distinct, and three new ids: to run the seed again, with three ids that
    -- are new then, changes no row.
    pub upgrade_again :
        (i' j' k' : String)
        → Drawn (values (i' ∷ j' ∷ k' ∷ []) defaults) (rows (upgrade sql drawn types))
        → rows (upgrade sql (i' ∷ j' ∷ k' ∷ []) (upgrade sql drawn types))
          ≡ rows (upgrade sql drawn types)
    upgrade_again i' j' k' w' =
        let g = upgrade-IsSeeded in
        unfold upgrade in
        insert_all-same sql (values (i' ∷ j' ∷ k' ∷ []) defaults) (upgrade sql drawn types) g.ids w'
          (
            g.has_defaults _ (inl refl),
            (g.has_defaults _ (inr (inl refl)), (g.has_defaults _ (inr (inr (inl refl))), tt)),
          )
