-- ===== src/Tasks/Delivery/Overlap/Safety.antt =====
-- What overlapping runs cannot do to the prices.
use parcel_delivery_api.Base.{
  ℕ, ◌≡◌, refl, ap, ◌∙◌, inl, inr, true, ◌==◌, List, [], ◌∷◌, arith, eq_iff, Bool-cases, take,
}
use native.Mathlib.Decide.{ℕ_discrete}
use mathlib.Core.Logic.{if_pos, if_neg}
use parcel_delivery_api.Base.Rows.{Has, All, select, rewrite, Distinct}
use parcel_delivery_api.Base.Rows.Members.{All-of_Has}
use parcel_delivery_api.Base.Rows.Keys.{first-Has-Distinct}
use parcel_delivery_api.Base.Rows.Queries.{select-Has, select-true, take-Has}
use parcel_delivery_api.Core.Action.{ok, Result-cases}
use parcel_delivery_api.Core.Settings.{Settings}
use parcel_delivery_api.Core.Decimal.{Decimal}
use parcel_delivery_api.Db.Sql.{Sql}
use parcel_delivery_api.Models.Parcel.{Parcel}
use parcel_delivery_api.Services.Parcel.{has_id, set_cost}
use parcel_delivery_api.Tasks.Delivery.{unpriced, fetch_unpriced, write_costs}
use parcel_delivery_api.Tasks.Delivery.Pricing.{cost}
use parcel_delivery_api.Tasks.Delivery.Termination.{write_costs-next, write_costs-raised}
use parcel_delivery_api.Tasks.Delivery.Overlap.{
  Shared, load, Step, fetch, commit, fail, Reach, start, next, Became, Rowwise,
}

same_row :
    (xs : List Parcel) (p q : Parcel)
    → Distinct (λ r. r.id) xs
    → Has p xs
    → Has q xs
    → (q.id == p.id) ≡ true
    → q ≡ p
same_row xs p q d hp hq e =
    let i = (eq_iff q.id p.id).0 e in
    let a = first-Has-Distinct (λ r. r.id) xs p d hp in
    let b = first-Has-Distinct (λ r. r.id) xs q d hq in cc (rw i at b)

module _ (sql : Sql) (settings : Settings) (rates : ℕ → Decimal) where
  open sql use {Table, rows, update}

  -- A row of the original table that has no price.
  abbrev Open : List Parcel → Parcel → Type 0
  Open all p = Has p all × (unpriced p ≡ true)

  Rowwise-refl : (ps : List Parcel) → Rowwise sql settings rates ps ps
  Rowwise-refl [] = tt
  Rowwise-refl (p ∷ ps) = (inl refl, Rowwise-refl ps)

  -- An unpriced row of the present table is a row of the original one.
  Open-original :
      (all ps qs : List Parcel) (q : Parcel)
      → ((p : Parcel) → Has p ps → Has p all)
      → Rowwise sql settings rates ps qs
      → Has q qs
      → unpriced q ≡ true
      → Open all q
  Open-original all [] [] q sub r m u = absurd m
  Open-original all [] (y ∷ qs) q sub r m u = absurd r
  Open-original all (p ∷ ps) [] q sub r m u = absurd r
  Open-original all (p ∷ ps) (y ∷ qs) q sub (inl e, r) (inl h) u =
      (rw (h ∙ e) (sub p (inl refl)), u)
  Open-original all (p ∷ ps) (y ∷ qs) q sub (inr (i, c, o, k, e), r) (inl h) u =
      absurd (ground (arith, ap unpriced (h ∙ e)))
  Open-original all (p ∷ ps) (y ∷ qs) q sub (b, r) (inr m) u =
      Open-original all ps qs q (λ x h. sub x (inr h)) r m u

  Became-id : (p q : Parcel) → Became sql settings rates p q → q.id ≡ p.id
  Became-id p q (inl e) = ap (λ r. r.id) e
  Became-id p q (inr (i, c, o, k, e)) = ap (λ r. r.id) e

  Became-set_cost :
      (i : ℕ) (c : Decimal) (p q : Parcel)
      → unpriced p ≡ true
      → cost sql settings (rates i) p ≡ ok c
      → Became sql settings rates p q
      → Became sql settings rates p (set_cost sql settings c q)
  Became-set_cost i c p q u k (inl e) = inr (i, c, u, k, ap (set_cost sql settings c) e)
  Became-set_cost i c p q u k (inr (j, c', u', k', e)) =
      inr (i, c, u, k, ap (set_cost sql settings c) e)

  -- The UPDATE of one parcel of a batch.
  Rowwise-update :
      (i : ℕ) (c : Decimal) (all ps qs : List Parcel) (p : Parcel)
      → Distinct (λ r. r.id) all
      → Open all p
      → cost sql settings (rates i) p ≡ ok c
      → ((r : Parcel) → Has r ps → Has r all)
      → Rowwise sql settings rates ps qs
      → Rowwise sql settings rates ps (rewrite (has_id p.id) (set_cost sql settings c) qs)
  Rowwise-update i c all [] [] p d o k sub r = tt
  Rowwise-update i c all [] (y ∷ qs) p d o k sub r = absurd r
  Rowwise-update i c all (x ∷ ps) [] p d o k sub r = absurd r
  Rowwise-update i c all (x ∷ ps) (y ∷ qs) p d o k sub (b, r) =
      let rest = Rowwise-update i c all ps qs p d o k (λ z h. sub z (inr h)) r in
      elim (Bool-cases (y.id == p.id)) [
        | inl e ↦
            let e' : (x.id == p.id) ≡ true = rw (Became-id x y b) at e in
            let same = same_row all p x d o.0 (sub x (inl refl)) e' in
            (
              rw e (
                  Became-set_cost i c x y (ap unpriced same ∙ o.1)
                    (ap (cost sql settings (rates i)) same ∙ k) b),
              rest,
            )
        | inr e ↦ (rw e b, rest)
      ]

  Rowwise-write :
      (i : ℕ) (all batch : List Parcel) (t t' : Table Parcel)
      → Distinct (λ r. r.id) all
      → All (Open all) batch
      → Rowwise sql settings rates all (rows t)
      → write_costs sql settings (rates i) batch t ≡ ok t'
      → Rowwise sql settings rates all (rows t')
  unfolding write_costs
  Rowwise-write i all [] t t' d o r h = let same : t ≡ t' = ground arith in rw same at r
  Rowwise-write i all (p ∷ batch) t t' d o r h =
      elim (Result-cases (cost sql settings (rates i) p)) [
        | inl (e, k) ↦ absurd (write_costs-raised sql settings (rates i) p batch t t' e k h)
        | inr (c, k) ↦
            Rowwise-write i all batch (update (has_id p.id) (set_cost sql settings c) t) t' d o.1
              (rw sql.update_lem (Rowwise-update i c all all (rows t) p d o.0 k (λ q m. m) r))
              (write_costs-next sql settings (rates i) p c batch t t' k h)
      ]

  record Inv (all : List Parcel) (s : Shared sql) : Type 0 where
    now : Rowwise sql settings rates all (rows s.table)
    held : (i : ℕ) → All (Open all) (s.loaded i)

  load-All :
      (P : Parcel → Type 0) (f : ℕ → List Parcel) (i : ℕ) (batch : List Parcel)
      → ((j : ℕ) → All P (f j))
      → All P batch
      → (j : ℕ) → All P (load f i batch j)
  load-All P f i batch h a j = elim (ℕ_discrete i j) [
    | yes e ↦ rw (if_pos _ e) a
    | no e ↦ rw (if_neg _ e) (h j)
  ]

  fetched-Open :
      (all : List Parcel) (t : Table Parcel)
      → Rowwise sql settings rates all (rows t)
      → All (Open all) (fetch_unpriced sql settings t)
  fetched-Open all t r =
      let n = settings.delivery_batch_size in
      let l = select unpriced (rows t) in
      rw sql.scalars_lem (
        All-of_Has (Open all) (take n l) (λ q m.
          let h = take-Has n l q m in
          Open-original all all (rows t) q (λ p k. k) r (select-Has unpriced (rows t) q h)
            (select-true unpriced (rows t) q h)))

  Step-Inv :
      {s u : Shared sql}
      → (all : List Parcel) → Distinct (λ r. r.id) all
      → Step sql settings rates s u
      → Inv all s
      → Inv all u
  Step-Inv all d (fetch s i) v = record {
    now = v.now;
    held =
        load-All (Open all) s.loaded i (fetch_unpriced sql settings s.table) v.held
          (fetched-Open all s.table v.now);
  }
  Step-Inv all d (commit s i t h) v = record {
    now = Rowwise-write i all (s.loaded i) s.table t d (v.held i) v.now h;
    held = load-All (Open all) s.loaded i [] v.held tt;
  }
  Step-Inv all d (fail s i e h) v = record {
    now = v.now;
    held = load-All (Open all) s.loaded i [] v.held tt;
  }

  Reach-Inv :
      (t : Table Parcel) {s : Shared sql}
      → Distinct (λ r. r.id) (rows t)
      → Reach sql settings rates t s
      → Inv (rows t) s
  Reach-Inv t d start = record { now = Rowwise-refl (rows t); held = λ i. tt }
  Reach-Inv t d (next r st) = Step-Inv (rows t) d st (Reach-Inv t d r)

  -- From a table with distinct ids, in whatever order any number of runs fetch and commit their
  -- batches, each row is at all times what it was, or it had no price and has got one: the price of
  -- that very parcel at the rate of one of the runs. No price that was there before is changed, and
  -- no other column is.
  pub prices_stay_right :
      (t : Table Parcel) (s : Shared sql)
      → Distinct (λ r. r.id) (rows t)
      → Reach sql settings rates t s
      → Rowwise sql settings rates (rows t) (rows s.table)
  prices_stay_right t s d r = (Reach-Inv t d r).now
