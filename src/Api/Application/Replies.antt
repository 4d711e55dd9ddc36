-- ===== src/Api/Application/Replies.antt =====
-- Every reply of the application is one that the documentation of its route lists.
use parcel_delivery_api.Base.{
  ℕ, suc, ◌≡◌, refl, String, Bool, true, false, Option, some, List, arith, ap,
}
use parcel_delivery_api.Base.Rows.{Distinct, count}
use parcel_delivery_api.Core.Exceptions.{validation_error}
use parcel_delivery_api.Core.Action.{Action, Result, ok, raised}
use parcel_delivery_api.Core.Action.Ends.{Post, Ends, Fails}
use parcel_delivery_api.Core.Settings.{Settings}
use parcel_delivery_api.Models.Parcel.{Parcel}
use parcel_delivery_api.Models.Database.{Database}
use parcel_delivery_api.Tasks.Delivery.{Outside, unpriced}
use parcel_delivery_api.Api.Http.{limit}
use parcel_delivery_api.Api.Errors.{reply_to}
use parcel_delivery_api.Api.Auth.{AuthReply}
use parcel_delivery_api.Api.Cache.{Json}
use parcel_delivery_api.Api.Parcel.{list_parcels, get_parcel}
use parcel_delivery_api.Api.Documented.{
  Response, lists_success, register_responses, login_responses, refresh_responses, logout_responses,
  logout_all_responses, manual_recalc_responses, parcel_types_responses, register_parcel_responses,
  list_parcels_responses, get_parcel_responses,
}
use parcel_delivery_api.Api.Calls.{
  Endpoint, list_parcels_route, get_parcel_route, CacheVisit, responses, Call, register, login,
  refresh, logout, logout_all, list_types, create, list_owned, get_owned, recalc,
}
use parcel_delivery_api.Api.Application.{
  cached, admit, with_status, answer, manual, guarded_manual, run_status, auth, Outer, World,
}
use parcel_delivery_api.Api.Application.Failures.{Accounted}
use parcel_delivery_api.Api.Application.Handlers.{
  Replies, register-Replies, login-Replies, refresh-Replies, logout-Replies, logout_all-Replies,
}
use parcel_delivery_api.Api.Application.Parcels.{
  register_parcel-Fails, list_parcels-Fails, list_parcel_types-Fails, get_parcel-Fails,
}
use parcel_delivery_api.Api.Application.Admission.{
  admit-Ends, with_status-Ends, with_status-Fails, limit-Ends, redis_cache-Fails,
  get_owner_id-Refuses, get_current_user_id-Refuses, require_task_admin_token-Refuses,
}
use parcel_delivery_api.Api.Application.Recalc.{manual_recalc-Ended}

-- The status of a success is listed as one; the reply to a failure is listed, by its status and its
-- error code or detail, or it is the rate limiter's or the one to an unexpected exception.
abbrev pub Documented : List Response → Result ℕ → Type 0
Documented docs r = Post (λ n. lists_success docs n ≡ true) (Accounted docs) r

never : {A : Type 0} → true ≡ false → A
never h = absurd (ground arith)

module _ (outer : Outer) (settings : Settings) where
  open outer use {sql, crypto, redis, text, item}

  abbrev pub Answered : List Response → Option (Result ℕ × World outer settings) → Type 0
  Answered docs o =
      (r : Result ℕ) × (w : World outer settings) × (o ≡ some (r, w)) × Documented docs r

  ended :
      (docs : List Response) (m : Action (World outer settings) ℕ) (w : World outer settings)
      → Ends (Accounted docs) (λ n. lists_success docs n ≡ true) m w
      → Answered docs (some (m w))
  ended docs m w h = ((m w).0, (m w).1, refl, h.at)

  -- The status of an auth handler's reply
  auth_reply :
      (docs : List Response) (m : Action (Database sql) AuthReply) (s : Database sql)
      (r : redis.State)
      → Replies outer settings docs m s
      → Ends (Accounted docs) (λ n. lists_success docs n ≡ true) (auth outer settings m) (s, r)
  auth_reply docs m s r h = with_status-Ends _ _ _ _ _ (record { at = h.at })

  -- An auth route that is open to all
  auth_route :
      (docs : List Response) (valid : Bool) (m : Action (Database sql) AuthReply) (s : Database sql)
      (r : redis.State)
      → (valid ≡ false → Accounted docs validation_error)
      → Replies outer settings docs m s
      → Answered docs (some (admit (ok tt) valid (λ _. auth outer settings m) (s, r)))
  auth_route docs valid m s r v h =
      ended docs _ (s, r) (admit-Ends _ _ _ _ _ _ tt v λ _. auth_reply docs _ s r h)

  -- A cached route, behind its guard
  cached_route :
      {A : Type 0} (docs : List Response) (guard : Result String) (valid : Bool) (name : Endpoint)
      (hit : Bool) (json : Json A) (key : String) (v : CacheVisit)
      (m : String → Action (Database sql) A) (s : Database sql) (r : redis.State)
      → lists_success docs 200 ≡ true
      → Post (λ _. Unit) (Accounted docs) guard
      → (valid ≡ false → Accounted docs validation_error)
      → ((owner : String) → Fails (Accounted docs) (m owner) s)
      → Answered docs (
          some (
            admit guard valid
              (λ owner.
                with_status
                  (λ a. 200)
                  (limit (item name) hit (cached outer settings json key v (m owner))))
              (s, r)))
  unfolding Accounted reply_to
  cached_route docs guard valid name hit json key v m s r ok200 g e h =
      ended docs _ (s, r)
        (admit-Ends _ _ _ _ _ _ g e λ owner.
          with_status-Fails _ _ 200 _ _ ok200
            (limit-Ends _ _ _ hit _ _ refl (redis_cache-Fails _ redis _ _ _ _ _ _ s r (h owner))))

  run-Answered :
      (s : Database sql) (q : Option (Result ℕ × World outer settings)) (res : Result ℕ)
      (t : sql.Table Parcel) (r : redis.State)
      → q ≡ run_status outer settings s (some (res, t, r))
      → Post (λ _. Unit) (Accounted manual_recalc_responses) res
      → Answered manual_recalc_responses q
  run-Answered s q (ok n) t r e h = (ok 202, _, e, refl)
  run-Answered s q (raised x) t r e h = (raised x, _, e, h)

  manual-Answered :
      (hit : Bool) (deleted_at : ℕ) (o : Outside) (w : World outer settings)
      → Distinct (λ p. p.id) (sql.rows w.0.parcels)
      → Answered manual_recalc_responses (manual outer settings hit deleted_at o w)
  unfolding Accounted reply_to
  manual-Answered false deleted_at o w d = (raised _, w, refl, refl)
  manual-Answered true deleted_at o (s, r) d =
      let (res, t, r', e, h) =
        manual_recalc-Ended (Accounted manual_recalc_responses) refl refl refl refl sql settings
          redis text (suc (count unpriced (sql.rows s.parcels))) deleted_at o s.parcels r d
          (omega arith) in
      let made = ap (run_status outer settings s) e in run-Answered s _ res t r' made h

  guarded-Answered :
      (hit : Bool) (deleted_at : ℕ) (o : Outside) (w : World outer settings)
      → Distinct (λ p. p.id) (sql.rows w.0.parcels)
      → (guard : Result (Unit {0})) → Post (λ _. Unit) (Accounted manual_recalc_responses) guard
      → Answered manual_recalc_responses (guarded_manual outer settings guard hit deleted_at o w)
  guarded-Answered hit deleted_at o w d (raised e) h = (raised e, w, refl, h)
  guarded-Answered hit deleted_at o w d (ok _) h = manual-Answered hit deleted_at o w d

  -- Whatever the request is, the tables and the cache, where parcel ids are distinct: each of the ten
  -- routes replies, and its reply is one that the route documents, a success by its status, an error
  -- by its status and its code or detail; or it is the rate limiter's 429, or the 500 of an
  -- unexpected exception.
  pub every_reply_documented :
      {e : Endpoint} (c : Call e) (w : World outer settings)
      → Distinct (λ p. p.id) (sql.rows w.0.parcels)
      → Answered (responses e) (answer outer settings c w)
  unfolding answer Accounted reply_to
  every_reply_documented (register hit body salt id now draw) (s, r) d =
      auth_route register_responses _ _ s r (λ _. refl)
        (register-Replies outer settings hit body.email body.password salt id now draw s)
  every_reply_documented (login hit body now draw) (s, r) d =
      auth_route login_responses _ _ s r (λ _. refl)
        (login-Replies outer settings hit body.email body.password now draw s)
  every_reply_documented (refresh hit request now draw) (s, r) d =
      auth_route refresh_responses true _ s r never
        (refresh-Replies outer settings hit request now draw s)
  every_reply_documented (logout hit request now) (s, r) d =
      auth_route logout_responses true _ s r never (logout-Replies outer settings hit request now s)
  every_reply_documented (logout_all hit token decoded_at now) (s, r) d =
      ended logout_all_responses _ (s, r)
        (admit-Ends _ _ _ _ _ _
          (get_current_user_id-Refuses _ settings (λ _. refl) crypto token decoded_at) never
          λ u.
            auth_reply logout_all_responses _ s r (logout_all-Replies outer settings hit u now s))
  every_reply_documented (list_types hit pagination v) (s, r) d =
      ended parcel_types_responses _ (s, r)
        (admit-Ends _ _ _ _ _ _ tt (λ _. refl)
          λ _. with_status-Fails _ _ 200 _ _ refl (
            limit-Ends _ _ _ hit _ _ refl (
              redis_cache-Fails _ redis _ _ _ _ _ _ s r
                (list_parcel_types-Fails sql settings _ pagination s))))
  every_reply_documented (create hit request token decoded_at body id) (s, r) d =
      ended register_parcel_responses _ (s, r)
        (admit-Ends _ _ _ _ _ _
          (get_owner_id-Refuses _ settings (λ _. refl) crypto _ request token decoded_at)
          (λ _. refl)
          λ owner_id. with_status-Fails _ _ 201 _ _ refl (
            limit-Ends _ _ _ hit _ _ refl
              (record { at = (register_parcel-Fails sql settings body owner_id id s).at })))
  every_reply_documented (list_owned hit request token decoded_at pagination filters v) (s, r) d =
      cached_route list_parcels_responses _ _ list_parcels_route hit outer.parcels_json _ v
        (list_parcels sql settings pagination filters) s r refl
        (get_owner_id-Refuses _ settings (λ _. refl) crypto _ request token decoded_at) (λ _. refl)
        λ owner. list_parcels-Fails sql settings _ pagination filters owner s
  every_reply_documented (get_owned hit request token decoded_at parcel_id v) (s, r) d =
      cached_route get_parcel_responses _ true get_parcel_route hit outer.parcel_json _ v
        (get_parcel sql settings parcel_id) s r refl
        (get_owner_id-Refuses _ settings (λ _. refl) crypto _ request token decoded_at) never
        λ owner. get_parcel-Fails sql settings parcel_id owner s
  every_reply_documented (recalc hit request deleted_at o) (s, r) d =
      guarded-Answered hit deleted_at o (s, r) d _
        (require_task_admin_token-Refuses (Accounted manual_recalc_responses) settings (λ _. refl)
          refl (request.headers "X-Admin-Token"))
