-- ===== src/Services/Parcel/Spec/Isolation.antt =====
-- What one owner sees does not depend on what others do; from the specification alone.
use parcel_delivery_api.Base.{
  ℕ, ◌≡◌, ap, ◌∙◌, String, Bool, false, ◌==◌, ◌&&◌, refl, inl, inr, Bool-cases, List, [], ◌∷◌,
  arith,
}
use parcel_delivery_api.Base.Rows.{All}
use parcel_delivery_api.Base.Rows.Bag.{Bag, units, units-put}
use parcel_delivery_api.Core.Action.{ok, raised}
use parcel_delivery_api.Core.Settings.{Settings}
use parcel_delivery_api.Db.Sql.{Sql}
use parcel_delivery_api.Models.User.{User}
use parcel_delivery_api.Models.ParcelType.{ParcelType}
use parcel_delivery_api.Models.Parcel.{Parcel}
use parcel_delivery_api.Models.Database.{Database}
use parcel_delivery_api.Services.Parcel.{
  ParcelCreate, ParcelFilterParams, owned_by, matches, list_owned,
}
use parcel_delivery_api.Services.Parcel.Listing.{list_owned_page}
use parcel_delivery_api.Services.Parcel.Spec.{
  Operation, creation, reading, listing, pricing, Answer, one, page, done, perform_all, view,
  Allowed, AllowedHistory, row_of,
}
use parcel_delivery_api.Services.Parcel.Spec.Refinement.{Keyed, service_refines}

-- An operation of somebody else: any read, and a creation by another owner.
abbrev pub NotBy : String → Operation → Type 0
NotBy owner (creation dto who id) = (who == owner) ≡ false
NotBy owner (reading id who) = Unit
NotBy owner (listing who filters limit offset) = Unit
NotBy owner (pricing p c) = ⊥

module _ (sql : Sql) (settings : Settings) (owner : String) where
  -- How many of the owner's parcels pass a test.
  abbrev pub seen : (Parcel → Bool) → Bag Parcel → ℕ
  seen q b = units (λ p. owned_by settings owner p && q p) b

  row-other :
      (dto : ParcelCreate) (who id : String)
      → (who == owner) ≡ false
      → owned_by settings owner (row_of settings dto who id) ≡ false
  unfolding owned_by
  row-other dto who id n = elim (Bool-cases settings.auth_required) [
    | inl e ↦ rw (e, n) refl
    | inr e ↦ rw (e, n) refl
  ]

  one_unseen :
      (users : List User) (types : List ParcelType) (op : Operation) (b b' : Bag Parcel)
      (a : Answer) (q : Parcel → Bool)
      → NotBy owner op
      → Allowed settings users types op b a b'
      → seen q b' ≡ seen q b
  one_unseen users types (creation dto who id) b b' (one (ok p)) q n (_, e, row, _, _) =
      let other : owned_by settings owner p ≡ false = rw row (row-other dto who id n) in
      rw e (ground (arith, other, units-put (λ p. owned_by settings owner p && q p) p b))
  one_unseen users types (creation dto who id) b b' (one (raised e)) q n h = ap (seen q) h.0
  one_unseen users types (reading id who) b b' (one r) q n h = ap (seen q) h.0
  one_unseen users types (listing who filters limit offset) b b' (page r) q n h = ap (seen q) h.0
  one_unseen users types (pricing p c) b b' a q n h = absurd n
  one_unseen users types (creation dto who id) b b' (page r) q n h = absurd h
  one_unseen users types (creation dto who id) b b' (done r) q n h = absurd h
  one_unseen users types (reading id who) b b' (page r) q n h = absurd h
  one_unseen users types (reading id who) b b' (done r) q n h = absurd h
  one_unseen users types (listing who filters limit offset) b b' (one r) q n h = absurd h
  one_unseen users types (listing who filters limit offset) b b' (done r) q n h = absurd h

  history_unseen :
      (users : List User) (types : List ParcelType) (ops : List Operation) (answers : List Answer)
      (b b' : Bag Parcel) (q : Parcel → Bool)
      → All (NotBy owner) ops
      → AllowedHistory settings users types ops b answers b'
      → seen q b' ≡ seen q b
  history_unseen users types [] [] b b' q n h = ap (seen q) h
  history_unseen users types [] (a ∷ as_) b b' q n h = absurd h
  history_unseen users types (op ∷ ops) [] b b' q n h = absurd h
  history_unseen users types (op ∷ ops) (a ∷ as_) b b' q n (mid, h, rest) =
      history_unseen users types ops as_ mid b' q n.1 rest
      ∙ one_unseen users types op b mid a q n.0 h

  -- On a table with distinct ids, whatever the others create and whatever is read or listed, while no
  -- price is written, the owner's own view stays: every test counts as many of the owner's parcels as
  -- before, and each listing of the owner has the total that it had.
  pub others_unseen :
      (ops : List Operation) (s : Database sql)
      → Keyed sql settings s
      → All (NotBy owner) ops
      → let s' = (perform_all sql settings ops s).1 in
        ((q : Parcel → Bool) → seen q (view sql s') ≡ seen q (view sql s))
        × ((filters : ParcelFilterParams) (limit offset : ℕ)
            → (n : ℕ) × (rows : List Parcel) × (rows' : List Parcel) × (list_owned sql settings
                  owner filters limit offset s
                ≡ (ok (n, rows), s))
              × (list_owned sql settings owner filters limit offset s' ≡ (ok (n, rows'), s')))
  unfolding units
  others_unseen ops s d n =
      let (answers, s') = perform_all sql settings ops s in
      let kept = λ (q : Parcel → Bool).
        history_unseen (sql.rows s.users) (sql.rows s.parcel_types) ops answers (view sql s)
          (view sql s') q n (service_refines sql settings ops s d).0 in
      (
        kept,
        λ filters limit offset.
            let (rows, e, _, _) = list_owned_page sql settings owner filters limit offset s in
            let (rows', e', _, _) = list_owned_page sql settings owner filters limit offset s' in
            (_, rows, rows', e, e' ∙ ap (λ m. (ok (m, rows'), s')) (kept (matches filters))),
      )
