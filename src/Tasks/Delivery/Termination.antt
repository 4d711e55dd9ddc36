-- ===== src/Tasks/Delivery/Termination.antt =====
-- The while loop ends, whether or not its commits succeed.
use parcel_delivery_api.Base.{
  ℕ, zero, suc, ◌+◌, ◌≤◌, ◌<◌, ◌≡◌, refl, ◌∙◌, some, List, [], ◌∷◌, length, arith, inl, inr,
}
use parcel_delivery_api.Base.Rows.{count, Distinct}
use parcel_delivery_api.Base.Rows.Keys.{Distinct-rewrite}
use parcel_delivery_api.Base.Rows.OneRow.{count-rewrite_one}
use parcel_delivery_api.Core.Exceptions.{Failure}
use parcel_delivery_api.Core.Action.{Result, ok, raised, Result-cases}
use parcel_delivery_api.Core.Settings.{Settings}
use parcel_delivery_api.Core.Decimal.{Decimal}
use parcel_delivery_api.Db.Sql.{Sql}
use parcel_delivery_api.Models.Parcel.{Parcel}
use parcel_delivery_api.Services.Parcel.{has_id, set_cost}
use parcel_delivery_api.Tasks.Delivery.{unpriced, fetch_unpriced, write_costs, price_loop}
use parcel_delivery_api.Tasks.Delivery.Pricing.{IsBatch, cost, All-other}
use parcel_delivery_api.Tasks.Delivery.Loop.{
  List-cases, fetch-IsBatch, price_loop-end, price_loop-round,
}

module _ (sql : Sql) (settings : Settings) (rate : Decimal) where
  open sql use {Table, rows, update}

  pub write_costs-raised :
      (p : Parcel) (ps : List Parcel) (t t' : Table Parcel) (e : Failure)
      → cost sql settings rate p ≡ raised e
      → write_costs sql settings rate (p ∷ ps) t ≡ ok t'
      → ⊥
  unfolding write_costs
  write_costs-raised p ps t t' e h k = ground (arith, h, k)

  pub write_costs-next :
      (p : Parcel) (c : Decimal) (ps : List Parcel) (t t' : Table Parcel)
      → cost sql settings rate p ≡ ok c
      → write_costs sql settings rate (p ∷ ps) t ≡ ok t'
      → write_costs sql settings rate ps (update (has_id p.id) (set_cost sql settings c) t) ≡ ok t'
  unfolding write_costs
  write_costs-next p c ps t t' e h = ground (arith, e, h)

  -- A commit that succeeds leaves fewer unpriced rows, by the length of the batch.
  write_costs-fewer :
      (ps : List Parcel) (t t' : Table Parcel)
      → Distinct (λ q. q.id) (rows t)
      → IsBatch sql settings rate ps (rows t)
      → write_costs sql settings rate ps t ≡ ok t'
      → (length ps + count unpriced (rows t') ≡ count unpriced (rows t))
        × Distinct (λ q. q.id) (rows t')
  unfolding write_costs
  write_costs-fewer [] t t' d b h =
      let same : t ≡ t' = ground arith in (rw same (omega arith), rw same at d)
  write_costs-fewer (p ∷ ps) t t' d b h = elim (Result-cases (cost sql settings rate p)) [
    | inl (e, k) ↦ absurd (write_costs-raised p ps t t' e k h)
    | inr (c, k) ↦
        let t1 = update (has_id p.id) (set_cost sql settings c) t in
        let law = sql.update_lem (has_id p.id) (set_cost sql settings c) t in
        let d1 : Distinct (λ q. q.id) (rows t1) = rw law (
          Distinct-rewrite (λ q. q.id) (has_id p.id) (set_cost sql settings c) (rows t) (λ q. refl)
            d) in
        let one : suc (count unpriced (rows t1)) ≡ count unpriced (rows t) = rw law (
          count-rewrite_one (λ q. q.id) (set_cost sql settings c) unpriced (rows t) p d b.stored.0
            b.open_prices.0 refl) in
        let rest : IsBatch sql settings rate ps (rows t1) = record {
          keys = b.keys.1;
          stored = rw law (All-other sql settings rate p c ps (rows t) b.keys.0 b.stored.1);
          open_prices = b.open_prices.1;
        } in
        let (fewer, keys) = write_costs-fewer ps t1 t' d1 rest (write_costs-next p c ps t t' k h) in
        (omega (arith, fewer, one), keys)
  ]

  pub price_loop-stop :
      (fuel updated : ℕ) (p : Parcel) (ps : List Parcel) (t : Table Parcel) (e : Failure)
      → fetch_unpriced sql settings t ≡ p ∷ ps
      → write_costs sql settings rate (p ∷ ps) t ≡ raised e
      → price_loop sql settings (suc fuel) rate updated t ≡ some (raised e, t)
  unfolding price_loop
  price_loop-stop fuel updated p ps t e f h = ground (arith, f, h)

  -- With distinct ids the loop ends whatever the batch size, the rate and the prices are, with a result
  -- or with the failure of a commit, when its fuel is more than the number of unpriced parcels; the
  -- number of the unpriced parcels has not grown.
  pub price_loop_ends :
      (fuel updated : ℕ) (t : Table Parcel)
      → Distinct (λ q. q.id) (rows t)
      → count unpriced (rows t) < fuel
      → (r : Result ℕ) × (t' : Table Parcel) × (price_loop sql settings fuel rate updated t
          ≡ some (r, t'))
        × (count unpriced (rows t') ≤ count unpriced (rows t))
  price_loop_ends zero updated t d f = absurd (omega arith)
  price_loop_ends (suc fuel) updated t d f = elim (List-cases (fetch_unpriced sql settings t)) [
    | inl e ↦ (ok updated, t, price_loop-end sql settings rate fuel updated t e, omega arith)
    | inr (p, ps, e) ↦ elim (Result-cases (write_costs sql settings rate (p ∷ ps) t)) [
      | inl (x, w) ↦ (raised x, t, price_loop-stop fuel updated p ps t x e w, omega arith)
      | inr (t1, w) ↦
          let (fewer, keys) =
            write_costs-fewer (p ∷ ps) t t1 d (rw e at (fetch-IsBatch sql settings rate t d)) w in
          let (r, t2, h, le) =
            price_loop_ends fuel (updated + length (p ∷ ps)) t1 keys (omega (arith, fewer, f)) in
          (
            r,
            t2,
            price_loop-round sql settings rate fuel updated p ps t t1 e w ∙ h,
            omega (arith, fewer, le),
          )
    ]
  ]
