-- ===== src/Services/Parcel/Listing.antt =====
-- `ParcelService.list_owned`: what a page holds, and how the pages fit together.
use parcel_delivery_api.Base.{
  ℕ, ◌+◌, ◌-◌, ◌≤◌, ◌≡◌, refl, sym, ap, ◌∙◌, String, Bool, true, List, ◌++◌, arith, length, take,
  drop, length-take, length-drop, take_add, drop_add, take-length,
}
use Prim.Native.Nat.{min}
use parcel_delivery_api.Base.Rows.{Has, count}
use parcel_delivery_api.Base.Rows.Queries.{
  length-select, Has-select, select-Has, select-true, take-Has, drop-Has,
}
use parcel_delivery_api.Base.Rows.Sorting.{Ascending, take-Ascending, drop-Ascending}
use parcel_delivery_api.Core.Action.{ok}
use parcel_delivery_api.Core.Settings.{Settings}
use parcel_delivery_api.Db.Sql.{Sql}
use parcel_delivery_api.Models.Parcel.{Parcel}
use parcel_delivery_api.Models.Database.{Database}
use parcel_delivery_api.Services.Parcel.{
  ParcelFilterParams, owned_by, matches, conditions, list_owned,
}

module _ (sql : Sql) (settings : Settings) (owner : String) (filters : ParcelFilterParams) where
  open sql use {rows, scalar, ordered}

  abbrev pub keep : Parcel → Bool
  keep = conditions sql settings owner filters

  abbrev pub listing : Database sql → List Parcel
  listing s = ordered (λ p. p.id) keep s.parcels

  listing-Has :
      (s : Database sql) (limit offset : ℕ) (p : Parcel)
      → Has p (take limit (drop offset (listing s)))
      → Has p (rows s.parcels) × (keep p ≡ true)
  listing-Has s limit offset p m =
      let m1 = drop-Has offset (listing s) p (take-Has limit (drop offset (listing s)) p m) in
      let m2 = (sql.ordered-Has (λ p. p.id) keep s.parcels p).0 m1 in
      (select-Has keep (rows s.parcels) p m2, select-true keep (rows s.parcels) p m2)

  listing-length : (s : Database sql) → length (listing s) ≡ count keep (rows s.parcels)
  listing-length s =
      sql.ordered-length (λ p. p.id) keep s.parcels ∙ length-select keep (rows s.parcels)

  -- `list_owned` changes nothing; its total counts the owner's stored parcels that match the
  -- filters; the page holds only such parcels, and as many as the limit and the offset leave.
  pub list_owned_page :
      (limit offset : ℕ) (s : Database sql)
      → let total = count keep (rows s.parcels) in
        (page : List Parcel) × (list_owned sql settings owner filters limit offset s
          ≡ (ok (total, page), s))
        × (length page ≡ min limit (total - offset))
        × ((p : Parcel)
            → Has p page
            → Has p (rows s.parcels)
              × (owned_by settings owner p ≡ true)
              × (matches filters p ≡ true))
  unfolding list_owned
  list_owned_page limit offset s = (
    take limit (drop offset (listing s)),
    rw (sql.scalars_lem, length-select) refl,
    length-take limit (drop offset (listing s))
        ∙ ap (min limit) (length-drop offset (listing s) ∙ ap (λ n. n - offset) (listing-length s)),
    λ p m. let (h, k) = listing-Has s limit offset p m in (h, ground arith, ground arith),
  )

  -- A page that begins at zero and whose limit is at least the total holds every parcel of the owner
  -- that matches the filters.
  pub list_owned-includes :
      (limit : ℕ) (s : Database sql) (p : Parcel)
      → count keep (rows s.parcels) ≤ limit
      → Has p (rows s.parcels)
      → owned_by settings owner p ≡ true
      → matches filters p ≡ true
      → (page : List Parcel) × (list_owned sql settings owner filters limit 0 s
          ≡ (ok (count keep (rows s.parcels), page), s))
        × Has p page
  unfolding list_owned
  list_owned-includes limit s p le m o k = (
    take limit (listing s),
    rw (sql.scalars_lem, length-select) refl,
    rw (take-length limit (listing s) (rw listing-length le)) (
        (sql.ordered-Has (λ p. p.id) keep s.parcels p).1
          (Has-select keep (rows s.parcels) p m (ground (arith, o, k)))),
  )

  -- Two pages, the second of which begins where the first ends, make up the one page of both limits,
  -- and the totals agree; the joined page is in the ascending order of the parcels' ids by the
  -- engine's collation.
  pub pages_join :
      (m n offset : ℕ) (s : Database sql)
      → (total : ℕ) × (first_page : List Parcel) × (second_page : List Parcel) × (list_owned sql
            settings owner filters m offset s
          ≡ (ok (total, first_page), s))
        × (list_owned sql settings owner filters n (offset + m) s ≡ (ok (total, second_page), s))
        × (list_owned sql settings owner filters (m + n) offset s
            ≡ (ok (total, first_page ++ second_page), s))
        × Ascending (λ p q. sql.text_le p.id q.id) (first_page ++ second_page)
  unfolding list_owned
  pages_join m n offset s =
      let l = listing s in
      let rest = drop offset l in
      let by_id = λ (p q : Parcel). sql.text_le p.id q.id in
      let joined = take_add m n rest in
      (
        length (sql.scalars keep s.parcels),
        take m rest,
        take n (drop m rest),
        refl,
        ap (λ k. (ok (length (sql.scalars keep s.parcels), take n k), s))
            (sym (drop_add offset m l)),
        ap (λ k. (ok (length (sql.scalars keep s.parcels), k), s)) (sym joined),
        rw joined (
            take-Ascending by_id (m + n) rest
              (drop-Ascending by_id offset l (sql.ordered-Ascending (λ p. p.id) keep s.parcels))),
      )
