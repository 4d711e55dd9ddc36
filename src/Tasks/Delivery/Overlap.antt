-- ===== src/Tasks/Delivery/Overlap.antt =====
-- Runs that overlap, once the lock of one has expired or the manual trigger has deleted it: between the
-- SELECT of a batch and its commit another run may fetch and commit. Each commit is one step.
pub mod Safety
use parcel_delivery_api.Base.{ℕ, ◌≡◌, ◌⊎◌, true, List, [], ◌∷◌, if◌then◌else◌}
use native.Mathlib.Decide.{ℕ_discrete}
use mathlib.Core.Logic.{ite}
use parcel_delivery_api.Core.Exceptions.{Failure}
use parcel_delivery_api.Core.Action.{ok, raised}
use parcel_delivery_api.Core.Settings.{Settings}
use parcel_delivery_api.Core.Decimal.{Decimal}
use parcel_delivery_api.Db.Sql.{Sql}
use parcel_delivery_api.Models.Parcel.{Parcel}
use parcel_delivery_api.Services.Parcel.{set_cost}
use parcel_delivery_api.Tasks.Delivery.{unpriced, fetch_unpriced, write_costs}
use parcel_delivery_api.Tasks.Delivery.Pricing.{cost}

-- The table, and for each run the batch that it has fetched and not committed yet.
pub record Shared (sql : Sql) : Type 0 where
  pub table : sql.Table Parcel
  pub loaded : ℕ → List Parcel

abbrev pub load : (ℕ → List Parcel) → ℕ → List Parcel → ℕ → List Parcel
load f i batch j = ite (ℕ_discrete i j) batch (f j)

-- `rates i` is the rate of run `i`.
module _ (sql : Sql) (settings : Settings) (rates : ℕ → Decimal) where
  pub data Step : Shared sql → Shared sql → Type 0 where
    fetch :
        (s : Shared sql) (i : ℕ)
        → Step s (record s { loaded = load s.loaded i (fetch_unpriced sql settings s.table) })
    commit :
        (s : Shared sql) (i : ℕ) (t : sql.Table Parcel)
        → write_costs sql settings (rates i) (s.loaded i) s.table ≡ ok t
        → Step s (record { table = t; loaded = load s.loaded i [] })
    fail :
        (s : Shared sql) (i : ℕ) (e : Failure)
        → write_costs sql settings (rates i) (s.loaded i) s.table ≡ raised e
        → Step s (record s { loaded = load s.loaded i [] })

  pub data Reach (t : sql.Table Parcel) : Shared sql → Type 0 where
    start : Reach t (record { table = t; loaded = λ i. [] })
    next : {s u : Shared sql} → Reach t s → Step s u → Reach t u

  -- What has become of a row: nothing, or it had no price and has one, at the rate of one of the runs.
  abbrev pub Became : Parcel → Parcel → Type 0
  Became p q =
      (q ≡ p)
      ⊎ ((i : ℕ) × (c : Decimal) × (unpriced p ≡ true)
          × (cost sql settings (rates i) p ≡ ok c)
          × (q ≡ set_cost sql settings c p))

  abbrev pub Rowwise : List Parcel → List Parcel → Type 0
  Rowwise [] [] = Unit
  Rowwise (p ∷ ps) (q ∷ qs) = Became p q × Rowwise ps qs
  Rowwise _ _ = ⊥
