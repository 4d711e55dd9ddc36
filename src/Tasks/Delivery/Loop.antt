-- ===== src/Tasks/Delivery/Loop.antt =====
-- The while loop of `recalc_delivery_costs`.
use parcel_delivery_api.Base.{
  ℕ, zero, suc, ◌+◌, ◌≤◌, ◌<◌, ◌≡◌, refl, sym, ap, ◌∙◌, Bool, true, some, List, [], ◌∷◌, map,
  length, arith, take, inl, inr, ◌⊎◌,
}
use parcel_delivery_api.Base.Rows.{Has, All, count, select, Distinct}
use parcel_delivery_api.Base.Rows.Members.{All-of_Has}
use parcel_delivery_api.Base.Rows.Queries.{select-Has, select-true, take-Has}
use parcel_delivery_api.Base.Rows.OneRow.{Distinct-select, Distinct-take, map-none}
use parcel_delivery_api.Core.Action.{ok}
use parcel_delivery_api.Core.Settings.{Settings}
use parcel_delivery_api.Core.Decimal.{Decimal}
use parcel_delivery_api.Db.Sql.{Sql}
use parcel_delivery_api.Models.Parcel.{Parcel}
use parcel_delivery_api.Tasks.Delivery.{unpriced, fetch_unpriced, write_costs, price_loop}
use parcel_delivery_api.Tasks.Delivery.Pricing.{IsBatch, Fits, price_row, write_costs-ok}

-- Which of the two forms a list has.
pub List-cases :
    {A : Type 0} (xs : List A) → (xs ≡ []) ⊎ ((x : A) × (rest : List A) × (xs ≡ x ∷ rest))
List-cases [] = inl refl
List-cases (x ∷ xs) = inr (x, xs, refl)

-- A batch of at least one that comes out empty shows that nothing is selected.
take-select-empty :
    {A : Type 0} (q : A → Bool) (n : ℕ) (xs : List A)
    → 1 ≤ n
    → take n (select q xs) ≡ []
    → count q xs ≡ 0
take-select-empty q zero xs le h = absurd (omega arith)
take-select-empty q (suc n) [] le h = refl
take-select-empty q (suc n) (x ∷ xs) le h = ground (arith, take-select-empty q (suc n) xs le)

module _ (sql : Sql) (settings : Settings) (rate : Decimal) where
  open sql use {Table, rows}

  pub fetch-IsBatch :
      (t : Table Parcel)
      → Distinct (λ q. q.id) (rows t)
      → IsBatch sql settings rate (fetch_unpriced sql settings t) (rows t)
  fetch-IsBatch t d =
      let n = settings.delivery_batch_size in
      let l = select unpriced (rows t) in
      rw sql.scalars_lem record {
        keys = Distinct-take (λ q. q.id) n l (Distinct-select (λ q. q.id) unpriced (rows t) d);
        stored =
            All-of_Has (λ q. Has q (rows t)) (take n l)
              (λ x m. select-Has unpriced (rows t) x (take-Has n l x m));
        open_prices =
            All-of_Has (λ q. unpriced q ≡ true) (take n l)
              (λ x m. select-true unpriced (rows t) x (take-Has n l x m));
      }

  pub price_loop-end :
      (fuel updated : ℕ) (t : Table Parcel)
      → fetch_unpriced sql settings t ≡ []
      → price_loop sql settings (suc fuel) rate updated t ≡ some (ok updated, t)
  unfolding price_loop
  price_loop-end fuel updated t e = ground (arith, e)

  pub price_loop-round :
      (fuel updated : ℕ) (p : Parcel) (ps : List Parcel) (t t' : Table Parcel)
      → fetch_unpriced sql settings t ≡ p ∷ ps
      → write_costs sql settings rate (p ∷ ps) t ≡ ok t'
      → price_loop sql settings (suc fuel) rate updated t
        ≡ price_loop sql settings fuel rate (updated + length (p ∷ ps)) t'
  unfolding price_loop
  price_loop-round fuel updated p ps t t' e e' = ground (arith, e, e')

  -- With a batch of at least one, distinct ids, and prices that the column takes, the loop ends when
  -- its fuel is more than the number of unpriced parcels; it has then counted each of them once, every
  -- one holds its price, no other row has changed, and none is left unpriced.
  pub price_loop-prices :
      (fuel updated : ℕ) (t : Table Parcel)
      → 1 ≤ settings.delivery_batch_size
      → Distinct (λ q. q.id) (rows t)
      → All (Fits sql settings rate) (rows t)
      → count unpriced (rows t) < fuel
      → (t' : Table Parcel) × (price_loop sql settings fuel rate updated t
          ≡ some (ok (updated + count unpriced (rows t)), t'))
        × (rows t' ≡ map (price_row sql settings rate) (rows t))
        × (count unpriced (rows t') ≡ 0)
  price_loop-prices zero updated t b d a f = absurd (omega arith)
  price_loop-prices (suc fuel) updated t b d a f =
      elim (List-cases (fetch_unpriced sql settings t)) [
        | inl e ↦
            let none_left =
              take-select-empty unpriced settings.delivery_batch_size (rows t) b
                (rw sql.scalars_lem at e) in
            (
              t,
              price_loop-end fuel updated t e ∙ ap (λ n. some (ok n, t)) (omega (arith, none_left)),
              sym (
                  map-none unpriced (price_row sql settings rate) (rows t)
                    (λ x h. ground (arith, h)) none_left),
              none_left,
            )
        | inr (p, ps, e) ↦
            let (t1, w, k) =
              write_costs-ok sql settings rate (p ∷ ps) t d a (rw e at (fetch-IsBatch t d)) in
            let (t2, l, m, z) =
              price_loop-prices fuel (updated + length (p ∷ ps)) t1 b k.keys k.fits
                (omega (arith, k.fewer, f)) in
            (
              t2,
              price_loop-round fuel updated p ps t t1 e w
                  ∙ l
                  ∙ ap (λ n. some (ok n, t2)) (omega (arith, k.fewer)),
              m ∙ k.prices,
              z,
            )
      ]
