-- ===== src/Tasks/Delivery/Pricing.antt =====
-- What one commit of the job does to the table of parcels.
use parcel_delivery_api.Base.{
  ℕ, suc, ◌+◌, ◌≡◌, refl, ◌∙◌, true, List, [], ◌∷◌, map, length, arith, if◌then◌else◌, ◌==◌,
}
use parcel_delivery_api.Base.Rows.{Has, All, none_of, count, rewrite, Distinct}
use parcel_delivery_api.Base.Rows.Members.{All-Has}
use parcel_delivery_api.Base.Rows.Keys.{Distinct-rewrite}
use parcel_delivery_api.Base.Rows.OneRow.{map-rewrite_one, count-rewrite_one, Has-rewrite}
use parcel_delivery_api.Base.Rows.Updates.{All-rewrite}
use parcel_delivery_api.Core.Action.{Result, ok, raised}
use parcel_delivery_api.Core.Settings.{Settings}
use parcel_delivery_api.Core.Decimal.{Decimal}
use parcel_delivery_api.Db.Sql.{Sql}
use parcel_delivery_api.Models.Parcel.{Parcel}
use parcel_delivery_api.Services.Parcel.{has_id, set_cost, stored_cost}
use parcel_delivery_api.Tasks.Delivery.{unpriced, cost_of, write_costs}

module _ (sql : Sql) (settings : Settings) (rate : Decimal) where
  open sql use {Table, rows, update}

  abbrev pub cost : Parcel → Result Decimal
  cost p = stored_cost sql settings (cost_of settings rate p)

  abbrev with_cost : Parcel → Result Decimal → Parcel
  with_cost p (ok c) = set_cost sql settings c p
  with_cost p (raised e) = p

  -- The row that the job leaves in place of a row.
  abbrev pub price_row : Parcel → Parcel
  price_row p = if unpriced p then with_cost p (cost p) else p

  -- The column takes the price of a parcel.
  abbrev pub Fits : Parcel → Type 0
  Fits p = (c : Decimal) × (cost p ≡ ok c)

  -- A batch of different parcels of the table, none of them priced.
  pub record IsBatch (ps : List Parcel) (xs : List Parcel) : Type 0 where
    pub keys : Distinct (λ p. p.id) ps
    pub stored : All (λ p. Has p xs) ps
    pub open_prices : All (λ p. unpriced p ≡ true) ps

  pub All-other :
      (p : Parcel) (c : Decimal) (ps xs : List Parcel)
      → none_of (λ q. q.id == p.id) ps ≡ true
      → All (λ q. Has q xs) ps
      → All (λ q. Has q (rewrite (has_id p.id) (set_cost sql settings c) xs)) ps
  All-other p c [] xs h a = tt
  All-other p c (q ∷ ps) xs h a = (
    Has-rewrite (has_id p.id) (set_cost sql settings c) xs q a.0 (ground arith),
    All-other p c ps xs (ground arith) a.1,
  )

  -- Each parcel of the batch is priced, no other row changes, and the unpriced rows are fewer by the
  -- length of the batch.
  pub record Priced (n : ℕ) (xs ys : List Parcel) : Type 0 where
    pub prices : map price_row ys ≡ map price_row xs
    pub fewer : n + count unpriced ys ≡ count unpriced xs
    pub keys : Distinct (λ p. p.id) ys
    pub fits : All Fits ys

  one-Priced :
      (p : Parcel) (c : Decimal) (xs : List Parcel)
      → Distinct (λ q. q.id) xs
      → All Fits xs
      → Has p xs
      → unpriced p ≡ true
      → cost p ≡ ok c
      → Priced 1 xs (rewrite (has_id p.id) (set_cost sql settings c) xs)
  one-Priced p c xs d a m u e = record {
    prices =
        map-rewrite_one (λ q. q.id) (set_cost sql settings c) price_row xs p d m
          (ground (arith, e));
    fewer =
        ground
          (arith, count-rewrite_one (λ q. q.id) (set_cost sql settings c) unpriced xs p d m u refl);
    keys = Distinct-rewrite (λ q. q.id) (has_id p.id) (set_cost sql settings c) xs (λ q. refl) d;
    fits =
        All-rewrite (has_id p.id) (set_cost sql settings c) Fits Fits xs (λ q h k. k) (λ q h k. k)
          a;
  }

  Priced-suc :
      (n : ℕ) (xs ys zs : List Parcel) → Priced 1 xs ys → Priced n ys zs → Priced (suc n) xs zs
  Priced-suc n xs ys zs a b = record {
    prices = b.prices ∙ a.prices;
    fewer = omega (arith, a.fewer, b.fewer);
    keys = b.keys;
    fits = b.fits;
  }

  write_costs-cons :
      (p : Parcel) (c : Decimal) (ps : List Parcel) (t t' : Table Parcel)
      → cost p ≡ ok c
      → write_costs sql settings rate ps (update (has_id p.id) (set_cost sql settings c) t) ≡ ok t'
      → write_costs sql settings rate (p ∷ ps) t ≡ ok t'
  unfolding write_costs
  write_costs-cons p c ps t t' e h = ground (arith, e, h)

  -- A commit of a batch whose prices fit succeeds.
  pub write_costs-ok :
      (ps : List Parcel) (t : Table Parcel)
      → Distinct (λ q. q.id) (rows t)
      → All Fits (rows t)
      → IsBatch ps (rows t)
      → (t' : Table Parcel) × (write_costs sql settings rate ps t ≡ ok t')
        × Priced (length ps) (rows t) (rows t')
  unfolding write_costs
  write_costs-ok [] t d a b =
      (t, refl, record { prices = refl; fewer = omega arith; keys = d; fits = a })
  write_costs-ok (p ∷ ps) t d a b =
      let (c, e) = All-Has Fits (rows t) p a b.stored.0 in
      let t1 = update (has_id p.id) (set_cost sql settings c) t in
      let law = sql.update_lem (has_id p.id) (set_cost sql settings c) t in
      let one : Priced 1 (rows t) (rows t1) =
        rw law (one-Priced p c (rows t) d a b.stored.0 b.open_prices.0 e) in
      let rest : IsBatch ps (rows t1) = record {
        keys = b.keys.1;
        stored = rw law (All-other p c ps (rows t) b.keys.0 b.stored.1);
        open_prices = b.open_prices.1;
      } in
      let (t2, e2, k) = write_costs-ok ps t1 one.keys one.fits rest in
      (
        t2,
        write_costs-cons p c ps t t2 e e2,
        Priced-suc (length ps) (rows t) (rows t1) (rows t2) one k,
      )
