-- ===== src/Api/Application/Recalc.antt =====
-- What the run of the job that the manual trigger starts raises, and that it ends.
use parcel_delivery_api.Base.{
  ℕ, zero, suc, ◌+◌, ◌<◌, ◌≡◌, refl, sym, ◌∙◌, inl, inr, String, Bool, true, false, Option, none,
  some, List, [], ◌∷◌, arith, length,
}
use parcel_delivery_api.Base.Rows.{Distinct, count}
use parcel_delivery_api.Core.Exceptions.{
  Failure, data_error, integrity_error, upstream_error, arithmetic_error,
}
use parcel_delivery_api.Core.Action.{Action, Result, ok, raised, Result-cases, lift, raise, pure}
use parcel_delivery_api.Core.Action.Ends.{Post, Post-elim, Post-if, Post-chain, Fails, Ends-bind}
use parcel_delivery_api.Core.Settings.{Settings}
use parcel_delivery_api.Core.Decimal.{Decimal}
use parcel_delivery_api.Db.Sql.{Sql}
use parcel_delivery_api.Models.Parcel.{Parcel, cost_column, cost_allowed}
use parcel_delivery_api.Services.Parcel.{stored_cost, update_cost}
use parcel_delivery_api.Tasks.Redis.{Redis}
use parcel_delivery_api.Tasks.Rates.{
  DecimalText, fetch_attempts, get_usd_rub_rate, to_decimal, cached_or_fetched,
}
use parcel_delivery_api.Tasks.Delivery.{
  Outside, unpriced, cost_of, fetch_unpriced, write_costs, price_loop, price_all,
  recalc_delivery_costs, manual_recalc, run_locked, finish,
}
use parcel_delivery_api.Tasks.Delivery.Termination.{price_loop_ends, price_loop-stop}
use parcel_delivery_api.Tasks.Delivery.Loop.{List-cases, price_loop-end, price_loop-round}

some-result :
    {A B : Type 0} (a b : A) (x y : B)
    → ◌≡◌ {A = Option (A × B)} (some (a, x)) (some (b, y))
    → a ≡ b
some-result a b x y h = ground (arith, h)

-- Failures of which nothing is known but the four that a run can raise.
module _ (E : Failure → Type 0) (out_of_range : E data_error) (integrity : E integrity_error)
    (upstream : E upstream_error) (arithmetic : E arithmetic_error) where
  abbrev Refuses : {A : Type 0} → Result A → Type 0
  Refuses r = Post (λ _. Unit) E r

  module _ (sql : Sql) (settings : Settings) where
    open sql use {Table, rows}

    stored_cost-Refuses : (cost : Decimal) → Refuses (stored_cost sql settings cost)
    stored_cost-Refuses cost =
        Post-elim (λ _. Unit) E (cost_column sql cost) (raised data_error) _ out_of_range
          λ c.
            Post-if (λ _. Unit) E (cost_allowed (some c)) (ok c) (raised integrity_error) tt
              integrity

    update_cost-Refuses :
        (p : Parcel) (cost : Decimal) (t : Table Parcel)
        → Refuses (update_cost sql settings p cost t)
    update_cost-Refuses p cost t =
        Post-chain (λ _. Unit) E (stored_cost sql settings cost) _ (stored_cost-Refuses cost)
          (λ c. tt)

    write_costs-Refuses :
        (rate : Decimal) (ps : List Parcel) (t : Table Parcel)
        → Refuses (write_costs sql settings rate ps t)
    unfolding write_costs
    write_costs-Refuses rate [] t = tt
    write_costs-Refuses rate (p ∷ ps) t =
        Post-chain (λ _. Unit) E (update_cost sql settings p (cost_of settings rate p) t)
          (λ t'. write_costs sql settings rate ps t')
          (update_cost-Refuses p (cost_of settings rate p) t) (λ t'. write_costs-Refuses rate ps t')

    price_loop-Refuses :
        (fuel : ℕ) (rate : Decimal) (updated : ℕ) (t t' : Table Parcel) (r : Result ℕ)
        → price_loop sql settings fuel rate updated t ≡ some (r, t')
        → Refuses r
    unfolding price_loop
    price_loop-Refuses zero rate updated t t' r h = absurd (ground arith)
    price_loop-Refuses (suc fuel) rate updated t t' r h =
        elim (List-cases (fetch_unpriced sql settings t)) [
          | inl e ↦
              let same = sym (price_loop-end sql settings rate fuel updated t e) ∙ h in
              rw (← some-result _ _ _ _ same) tt
          | inr (p, ps, e) ↦ elim (Result-cases (write_costs sql settings rate (p ∷ ps) t)) [
            | inl (x, w) ↦
                let same = sym (price_loop-stop sql settings rate fuel updated p ps t x e w) ∙ h in
                rw (← some-result _ _ _ _ same) (rw w at (write_costs-Refuses rate (p ∷ ps) t))
            | inr (t1, w) ↦
                price_loop-Refuses fuel rate (updated + length (p ∷ ps)) t1 t' r
                  (sym (price_loop-round sql settings rate fuel updated p ps t t1 e w) ∙ h)
          ]
        ]

    module _ (redis : Redis) (text : DecimalText) where
      parsed-Fails :
          (o : Option Decimal) (r : redis.State)
          → Fails E
              (let m : Action redis.State Decimal = elim o [
                | none ↦ raise arithmetic_error
                | some d ↦ pure d
              ] in
                m)
              r
      parsed-Fails none r = record { at = arithmetic }
      parsed-Fails (some d) r = record { at = tt }

      to_decimal-Fails :
          (raw : String) (r : redis.State) → Fails E (to_decimal redis text settings raw) r
      to_decimal-Fails raw r = parsed-Fails (text.parse raw) r

      fetch_attempts-Refuses :
          (n : ℕ) (answers : List (Option Decimal)) → Refuses (fetch_attempts n answers)
      unfolding fetch_attempts
      fetch_attempts-Refuses zero answers = upstream
      fetch_attempts-Refuses (suc n) [] = upstream
      fetch_attempts-Refuses (suc n) (none ∷ answers) = fetch_attempts-Refuses n answers
      fetch_attempts-Refuses (suc n) (some rate ∷ answers) = tt

      lifted : (q : Result Decimal) (r : redis.State) → Refuses q → Fails E (lift q) r
      lifted q r h = record { at = h }

      cached_or_fetched-Fails :
          (key : String) (now : ℕ) (answers : List (Option Decimal)) (o : Option String)
          (r : redis.State)
          → Fails E (cached_or_fetched redis text settings key now answers o) r
      cached_or_fetched-Fails key now answers (some raw) r = to_decimal-Fails raw r
      cached_or_fetched-Fails key now answers none r =
          search (Ends-bind, lifted, fetch_attempts-Refuses)

      rate-Fails :
          (today : String) (now : ℕ) (answers : List (Option Decimal)) (r : redis.State)
          → Fails E (get_usd_rub_rate redis text settings today now answers) r
      unfolding get_usd_rub_rate
      rate-Fails today now answers r = search (Ends-bind, cached_or_fetched-Fails)

      -- A run ends, with 202 or with a failure of these.
      abbrev Ended : Option (Result ℕ × Table Parcel × redis.State) → Type 0
      Ended q =
          (res : Result ℕ) × (t : Table Parcel) × (r : redis.State) × (q ≡ some (res, t, r))
          × Refuses res

      finish-Ended :
          (o : Outside) (r : redis.State) (res : Result ℕ) (t : Table Parcel)
          → Refuses res
          → Ended (finish sql redis text settings o r (res, t))
      finish-Ended o r (ok n) t h = (ok n, t, _, refl, tt)
      finish-Ended o r (raised e) t h = (raised e, t, r, refl, h)

      price_all-Ended :
          (fuel : ℕ) (o : Outside) (t : Table Parcel) (q : Result Decimal) (r : redis.State)
          → Distinct (λ p. p.id) (rows t)
          → count unpriced (rows t) < fuel
          → Refuses q
          → Ended (price_all sql redis text settings fuel o t (q, r))
      price_all-Ended fuel o t (raised e) r d f h = (raised e, t, r, refl, h)
      price_all-Ended fuel o t (ok rate) r d f h =
          let (res, t', e, _) = price_loop_ends sql settings rate fuel 0 t d f in
          rw (price_all, e) (finish-Ended o r res t' (price_loop-Refuses fuel rate 0 t t' res e))

      run_locked-Ended :
          (fuel : ℕ) (o : Outside) (t : Table Parcel) (q : Bool × redis.State)
          → Distinct (λ p. p.id) (rows t)
          → count unpriced (rows t) < fuel
          → Ended (run_locked sql redis text settings fuel o t q)
      run_locked-Ended fuel o t (false, r) d f = (ok 0, t, r, refl, tt)
      run_locked-Ended fuel o t (true, r) d f =
          price_all-Ended fuel o t _ _ d f (rate-Fails o.today o.rate_at o.answers r).at

      pub manual_recalc-Ended :
          (fuel deleted_at : ℕ) (o : Outside) (t : Table Parcel) (r : redis.State)
          → Distinct (λ p. p.id) (rows t)
          → count unpriced (rows t) < fuel
          → Ended (manual_recalc sql redis text settings fuel deleted_at o t r)
      unfolding manual_recalc recalc_delivery_costs
      manual_recalc-Ended fuel deleted_at o t r d f = run_locked-Ended fuel o t _ d f
