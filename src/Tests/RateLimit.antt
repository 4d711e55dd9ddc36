-- ===== src/Tests/RateLimit.antt =====
-- app/core/rate_limit.py
use parcel_delivery_api.Base.{
  ℕ, ◌+◌, ◌≡◌, ◌≢◌, ◌⊎◌, inl, inr, refl, ap, String, Bool, false, some, List, [], ◌∷◌, ◌==◌, ◌&&◌,
  arith, ltb, eq-false_of_ne,
}
use parcel_delivery_api.Base.Rows.{count}
use parcel_delivery_api.Core.Action.{Action, ok}
use parcel_delivery_api.Api.RateLimit.{Strategy, RouteRequest, request, limited, find_request}
use parcel_delivery_api.Api.RateLimit.Callers.{Call, after_calls, own, own_calls_count}

abbrev Hits : Type 0
Hits = List (String × String × String)

abbrev is_key : String → String → String → String × String × String → Bool
is_key item route address (i, r, a) = i == item && r == route && a == address

abbrev hits : String → String → String → Hits → ℕ
hits item route address c = count (is_key item route address) c

other_key :
    (i i' r r' a a' : String) → (i ≢ i') ⊎ ((r ≢ r') ⊎ (a ≢ a')) → is_key i' r' a' (i, r, a) ≡ false
other_key i i' r r' a a' (inl n) = let e = eq-false_of_ne i i' n in ground (arith, e)
other_key i i' r r' a a' (inr (inl n)) = let e = eq-false_of_ne r r' n in ground (arith, e)
other_key i i' r r' a a' (inr (inr n)) = let e = eq-false_of_ne a a' n in ground (arith, e)

one_more :
    (i r a : String) (c c' : Hits)
    → hits i r a c ≡ hits i r a c'
    → hits i r a ((i, r, a) ∷ c) ≡ hits i r a ((i, r, a) ∷ c')
one_more i r a c c' h = ground (arith, h)

no_more :
    (i i' r r' a a' : String) (c : Hits)
    → (i ≢ i') ⊎ ((r ≢ r') ⊎ (a ≢ a'))
    → hits i' r' a' ((i, r, a) ∷ c) ≡ hits i' r' a' c
no_more i i' r r' a a' c n = let e = other_key i i' r r' a a' n in ground (arith, e)

-- Two hits in all; there is one window.
abbrev twice : Strategy
twice = record {
  Counters = Hits;
  Slot = ℕ;
  hit = λ item route address t c. (ltb (hits item route address c) 2, (item, route, address) ∷ c);
  slot = hits;
  hit_verdict = λ item route address t c c' h. ap (λ n. ltb n 2) h;
  hit_slot = λ item route address t c c' h. one_more item route address c c' h;
  hit_other = λ i i' r r' a a' t c n. no_more i i' r r' a a' c n;
}

abbrev login_of : String → RouteRequest
login_of host = record {
  method = "POST";
  route_path = some "/auth/login";
  url_path = "/auth/login";
  client = some host;
}

abbrev call_of : String → Call
call_of host = record { item = "20 per 1 minute"; asked = login_of host; at = 0 }

abbrev calls : List Call
calls = call_of "10.0.0.1" ∷ call_of "10.0.0.2" ∷ call_of "10.0.0.2" ∷ call_of "10.0.0.2" ∷ []

abbrev handler : Action ℕ String
handler n = (ok "in", n + 1)

let_in :
    (limited twice "20 per 1 minute" []
      (("request", request (login_of "10.0.0.1")) ∷ [])
      0
      handler
      (0, after_calls twice calls [])).0
    ≡ ok "in"
unfolding limited find_request
let_in = refl

own_calls_count_example :
    (limited twice "20 per 1 minute" []
      (("request", request (login_of "10.0.0.1")) ∷ [])
      0
      handler
      (0, after_calls twice calls [])).0
    ≡ (limited twice "20 per 1 minute" []
        (("request", request (login_of "10.0.0.1")) ∷ [])
        0
        handler
        (0, after_calls twice (own (login_of "10.0.0.1") calls) [])).0
own_calls_count_example =
    own_calls_count twice "20 per 1 minute" (login_of "10.0.0.1") 0 calls [] handler 0 refl
      (refl, (refl, (refl, (refl, tt))))
