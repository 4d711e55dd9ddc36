-- ===== src/Services/Parcel/Spec.antt =====
-- What the parcel service promises, on parcels without order: a bag of rows for the table, and for each
-- operation the answers and the next bags that it allows.
pub mod Meaning
pub mod Creation
pub mod Refinement
pub mod Isolation
use parcel_delivery_api.Base.{
  ℕ, ◌-◌, ◌^◌, ◌≤◌, ◌<◌, ◌≡◌, ◌≢◌, ◌↔◌, ◌⊎◌, String, Bool, true, false, ◌==◌, Option, none, some,
  List, [], ◌∷◌, length, if◌then◌else◌,
}
use Prim.Native.Nat.{min}
use parcel_delivery_api.Base.Rows.{All, none_of}
use parcel_delivery_api.Base.Rows.Bag.{Bag, bag_of, units, put, change, IsIn}
use parcel_delivery_api.Core.Exceptions.{
  Failure, business_error, not_found_error, unauthorized_error, integrity_error, data_error,
}
use parcel_delivery_api.Core.Action.{Result, ok, raised}
use parcel_delivery_api.Core.Settings.{Settings}
use parcel_delivery_api.Core.Decimal.{Decimal, rounded, at_places, le_zero, negative_value}
use parcel_delivery_api.Core.Text.Search.{text_length}
use parcel_delivery_api.Db.Sql.{Sql}
use parcel_delivery_api.Models.User.{User}
use parcel_delivery_api.Models.ParcelType.{ParcelType}
use parcel_delivery_api.Models.Parcel.{Parcel}
use parcel_delivery_api.Models.Database.{Database}
use parcel_delivery_api.Services.Parcel.{
  ParcelCreate, ParcelFilterParams, create_from_dto, get_owned, list_owned, set_delivery_cost,
}
use parcel_delivery_api.Services.Parcel.KnownType.{IsKnown}

pub data Operation : Type 0 where
  -- the payload, the owner and the new id
  creation : ParcelCreate → String → String → Operation
  reading : String → String → Operation
  -- the owner, the filters, the limit and the offset
  listing : String → ParcelFilterParams → ℕ → ℕ → Operation
  pricing : Parcel → Decimal → Operation

pub data Answer : Type 0 where
  one : Result Parcel → Answer
  page : Result (ℕ × List Parcel) → Answer
  done : Result (Unit {0}) → Answer

module _ (sql : Sql) (settings : Settings) where
  unfoldable pub perform : Operation → Database sql → Answer × Database sql
  perform (creation dto owner id) s =
      let (r, s') = create_from_dto sql settings dto owner id s in (one r, s')
  perform (reading id owner) s = let (r, s') = get_owned sql settings id owner s in (one r, s')
  perform (listing owner filters limit offset) s =
      let (r, s') = list_owned sql settings owner filters limit offset s in (page r, s')
  perform (pricing p c) s = let (r, s') = set_delivery_cost sql settings p c s in (done r, s')

  unfoldable pub perform_all : List Operation → Database sql → List Answer × Database sql
  perform_all [] s = ([], s)
  perform_all (op ∷ ops) s =
      let (a, s') = perform op s in let (as_, s'') = perform_all ops s' in (a ∷ as_, s'')

-- The specification speaks of the settings, of the users and parcel types that are stored, and of bags
-- of parcels; not of the code.
module _ (settings : Settings) where
  -- The parcel belongs to the owner: by its user where users log in, by its session where not.
  abbrev pub Belongs : String → Parcel → Type 0
  Belongs owner p =
      (settings.auth_required ≡ true → p.user_id ≡ some owner)
      × (settings.auth_required ≡ false → p.session_id ≡ owner)

  -- What a filter asks for; no type, an empty one and no `has_cost` ask for nothing.
  abbrev pub OfType : Option String → Parcel → Type 0
  OfType o p = (t : String) → o ≡ some t → t ≢ "" → p.parcel_type_id ≡ t

  abbrev pub Priced : Option Bool → Parcel → Type 0
  Priced o p =
      (o ≡ some true → p.delivery_cost_rub ≢ none) × (o ≡ some false → p.delivery_cost_rub ≡ none)

  abbrev pub Wanted : String → ParcelFilterParams → Parcel → Type 0
  Wanted owner filters p = Belongs owner p × OfType filters.type_id p × Priced filters.has_cost p

  -- The row of a payload: its values at the places of the columns, with no price, under its owner.
  abbrev pub row_of : ParcelCreate → String → String → Parcel
  row_of dto owner id = record {
    id = id;
    name = dto.name;
    weight_kg = at_places dto.weight_kg 3;
    declared_value_usd = at_places dto.declared_value_usd 2;
    session_id = if settings.auth_required then "" else owner;
    delivery_cost_rub = none;
    parcel_type_id = dto.parcel_type_id;
    user_id = if settings.auth_required then some owner else none;
  }

  -- A text is longer than its column, or a value has too many digits before the point.
  abbrev pub IsTooLarge : Parcel → ParcelCreate → Type 0
  IsTooLarge p dto =
      (36 < text_length p.id)
      ⊎ ((255 < text_length p.name)
          ⊎ ((255 < text_length p.session_id)
              ⊎ ((36 < text_length p.parcel_type_id)
                  ⊎ (((user : String) × (p.user_id ≡ some user) × (36 < text_length user))
                      ⊎ ((10 ^ 10 ≤ rounded dto.weight_kg 3)
                          ⊎ (10 ^ 12 ≤ rounded dto.declared_value_usd 2))))))

  module _ (users : List User) (types : List ParcelType) where
    -- The id is taken, the weight rounds to zero, the value is negative, or the user is not stored.
    abbrev pub IsRefused : Parcel → String → Bag Parcel → Type 0
    IsRefused p owner b =
        (1 ≤ units (λ q. q.id == p.id) b)
        ⊎ ((le_zero p.weight_kg ≡ true)
            ⊎ ((negative_value p.declared_value_usd ≡ true)
                ⊎ ((settings.auth_required ≡ true) × (none_of (λ u. u.id == owner) users ≡ true))))

    -- Why a creation may fail: each failure has its one cause.
    abbrev pub Uncreated : ParcelCreate → String → String → Bag Parcel → Failure → Type 0
    Uncreated dto owner id b e =
        ((e ≡ business_error "Unknown parcel type") × ¬ (IsKnown types dto.parcel_type_id))
        ⊎ (((e ≡ business_error "Weight must be positive")
              × IsKnown types dto.parcel_type_id
              × (le_zero dto.weight_kg ≡ true))
            ⊎ (((e ≡ data_error)
                  × IsKnown types dto.parcel_type_id
                  × (le_zero dto.weight_kg ≡ false)
                  × IsTooLarge (row_of dto owner id) dto)
                ⊎ ((e ≡ integrity_error)
                    × IsKnown types dto.parcel_type_id
                    × (le_zero dto.weight_kg ≡ false)
                    × IsRefused (row_of dto owner id) owner b)))

    -- A parcel of a known type and a positive weight joins the bag as the row of its payload, under an
    -- id that was free; or nothing is created, for a cause.
    abbrev pub Creates :
        ParcelCreate → String → String → Bag Parcel → Result Parcel → Bag Parcel → Type 0
    Creates dto owner id b (ok p) b' =
        (units (λ q. q.id == id) b ≡ 0)
        × (b' ≡ put p b)
        × (p ≡ row_of dto owner id)
        × IsKnown types dto.parcel_type_id
        × (le_zero dto.weight_kg ≡ false)
    Creates dto owner id b (raised e) b' = (b' ≡ b) × Uncreated dto owner id b e

    -- A read gives a parcel of the bag with that id and owner; it fails where the id is of no parcel,
    -- or of one that does not belong to the owner.
    abbrev pub Reads : String → String → Bag Parcel → Result Parcel → Type 0
    Reads id owner b (ok p) = IsIn p b × (p.id ≡ id) × Belongs owner p
    Reads id owner b (raised e) =
        ((e ≡ not_found_error "Parcel not found") × (units (λ q. q.id == id) b ≡ 0))
        ⊎ ((e ≡ unauthorized_error "Parcel not found")
            × ((p : Parcel) × IsIn p b × (p.id ≡ id) × ¬ (Belongs owner p)))

    -- A listing counts the wanted parcels of the bag, and gives as many of them as fit the page.
    abbrev pub Lists :
        String → ParcelFilterParams → ℕ → ℕ → Bag Parcel → Result (ℕ × List Parcel) → Type 0
    Lists owner filters limit offset b (ok (total, rows)) =
        (q : Parcel → Bool) × ((p : Parcel) → (q p ≡ true) ↔ Wanted owner filters p)
        × (total ≡ units q b)
        × (length rows ≡ min limit (total - offset))
        × All (λ p. IsIn p b × Wanted owner filters p) rows
    Lists owner filters limit offset b (raised e) = ⊥

    -- A price that the column holds is written, at two places, to the parcel with that id and no other;
    -- any other price is an error.
    abbrev pub Prices : Parcel → Decimal → Bag Parcel → Result (Unit {0}) → Bag Parcel → Type 0
    Prices p c b (ok _) b' =
        (rounded c 2 < 10 ^ 12)
        × (negative_value (at_places c 2) ≡ false)
        × (b'
            ≡ change (λ q. q.id == p.id)
                (λ q. record q { delivery_cost_rub = some (at_places c 2) }) b)
    Prices p c b (raised e) b' =
        (b' ≡ b)
        × (((e ≡ data_error) × (10 ^ 12 ≤ rounded c 2))
            ⊎ ((e ≡ integrity_error) × (negative_value (at_places c 2) ≡ true)))

    abbrev pub Allowed : Operation → Bag Parcel → Answer → Bag Parcel → Type 0
    Allowed (creation dto owner id) b (one r) b' = Creates dto owner id b r b'
    Allowed (reading id owner) b (one r) b' = (b' ≡ b) × Reads id owner b r
    Allowed (listing owner filters limit offset) b (page r) b' =
        (b' ≡ b) × Lists owner filters limit offset b r
    Allowed (pricing p c) b (done r) b' = Prices p c b r b'
    Allowed _ b _ b' = ⊥

    -- A history of operations with their answers, from one bag to another.
    abbrev pub AllowedHistory : List Operation → Bag Parcel → List Answer → Bag Parcel → Type 0
    AllowedHistory [] b [] b' = b' ≡ b
    AllowedHistory (op ∷ ops) b (a ∷ as_) b' =
        (mid : Bag Parcel) × Allowed op b a mid × AllowedHistory ops mid as_ b'
    AllowedHistory _ b _ b' = ⊥

module _ (sql : Sql) where
  -- The abstract view of the table of parcels.
  abbrev pub view : Database sql → Bag Parcel
  view s = bag_of (sql.rows s.parcels)
