-- ===== src/Api/RateLimit/Callers.antt =====
-- Whose calls use up a limit.
use Prim.Native.Char.{Char, code}
use Prim.Native.String.{◌++◌}
use text.Mathlib.TextLemmas.{nil-append, cons-append, head-eq_of_cons-eq, tail-eq_of_cons-eq}
use parcel_delivery_api.Base.{
  ℕ, ◌≡◌, ◌≢◌, ◌⊎◌, inl, inr, refl, sym, ap, ◌∙◌, String, Bool, Bool-cases, Option-cases, true,
  false, Option, none, some, List, [], ◌∷◌, ◌==◌, ◌&&◌, not, arith, eq_iff, ne_of_eq-false, leb,
}
use parcel_delivery_api.Base.Rows.{All, select}
use parcel_delivery_api.Core.Action.{Action}
use parcel_delivery_api.Api.Http.{limit}
use parcel_delivery_api.Api.RateLimit.{
  Strategy, RouteRequest, request, path_of, route_identifier, remote_address, hit_by, limited,
  find_request,
}

abbrev is_colon : Char → Bool
is_colon c = leb 58 (code c) && leb (code c) 58

-- HTTP methods are tokens, which have no colon.
abbrev pub no_colon : String → Bool
no_colon String.[] = true
no_colon (String.◌∷◌ c s) = not (is_colon c) && no_colon s

colon-head : (s : String) (c : Char) → no_colon (String.◌∷◌ c s) ≡ true → c ≡ ":" → ⊥
colon-head s c h e = let k = ap is_colon e in ground (arith, h, k)

from_colon : (p : String) → "" ++ (":" ++ p) ≡ String.◌∷◌ ":" p
from_colon p = nil-append (":" ++ p) ∙ cons-append ":" "" p ∙ ap (String.◌∷◌ ":") (nil-append p)

-- The text before the first colon and the text after it are determined.
split_inj :
    (m m' p p' : String)
    → no_colon m ≡ true
    → no_colon m' ≡ true
    → m ++ (":" ++ p) ≡ m' ++ (":" ++ p')
    → (m ≡ m') × (p ≡ p')
split_inj String.[] String.[] p p' h h' e =
    (refl, tail-eq_of_cons-eq (sym (from_colon p) ∙ e ∙ from_colon p'))
split_inj String.[] (String.◌∷◌ c m') p p' h h' e =
    let both = sym (from_colon p) ∙ e ∙ cons-append c m' (":" ++ p') in
    absurd (colon-head m' c h' (sym (head-eq_of_cons-eq both)))
split_inj (String.◌∷◌ c m) String.[] p p' h h' e =
    let both = sym (from_colon p') ∙ sym e ∙ cons-append c m (":" ++ p) in
    absurd (colon-head m c h (sym (head-eq_of_cons-eq both)))
split_inj (String.◌∷◌ c m) (String.◌∷◌ c' m') p p' h h' e =
    let both = sym (cons-append c m (":" ++ p)) ∙ e ∙ cons-append c' m' (":" ++ p') in
    let (a, b) =
      split_inj m m' p p' (ground (arith, h)) (ground (arith, h')) (tail-eq_of_cons-eq both) in
    (ap (λ x. String.◌∷◌ x m) (head-eq_of_cons-eq both) ∙ ap (String.◌∷◌ c') a, b)

-- A call of a limited handler: the item, the request and the time.
pub record Call : Type 0 where
  pub item : String
  pub asked : RouteRequest
  pub at : ℕ

-- One client: the same host; a request without a client counts as the host "unknown".
abbrev pub same_client : Option String → Option String → Bool
same_client none none = true
same_client none (some host) = "unknown" == host
same_client (some host) none = host == "unknown"
same_client (some host) (some host') = host == host'

-- One client on one route
abbrev pub same_caller : RouteRequest → RouteRequest → Bool
same_caller q r = r.method == q.method && path_of r == path_of q && same_client r.client q.client

abbrev host_of : Option String → String
host_of none = "unknown"
host_of (some host) = host

other_host : (c c' : Option String) → same_client c c' ≡ false → host_of c ≢ host_of c'
other_host none none n = ground (arith, n)
other_host none (some b) n = ne_of_eq-false "unknown" b n
other_host (some a) none n = ne_of_eq-false a "unknown" n
other_host (some a) (some b) n = ne_of_eq-false a b n

address-host : (r : RouteRequest) → remote_address r ≡ host_of r.client
address-host r = elim (Option-cases r.client) [ inl e ↦ rw e refl | inr (host, e) ↦ rw e refl ]

other-client :
    (r q : RouteRequest)
    → same_client r.client q.client ≡ false
    → remote_address r ≢ remote_address q
other-client r q n same =
    other_host r.client q.client n (sym (address-host r) ∙ same ∙ address-host q)

abbrev pub own : RouteRequest → List Call → List Call
own q calls = select (λ call. same_caller q call.asked) calls

module _ (strategy : Strategy) where
  open strategy use {Counters, slot}

  -- What the calls leave in the counters
  abbrev pub after_calls : List Call → Counters → Counters
  after_calls [] c = c
  after_calls (call ∷ calls) c =
      after_calls calls (hit_by strategy call.item call.asked call.at c).1

  abbrev SlotOf : String → RouteRequest → Counters → strategy.Slot
  SlotOf item q c = slot item (route_identifier q) (remote_address q) c

  other-caller :
      (q r : RouteRequest)
      → no_colon q.method ≡ true
      → no_colon r.method ≡ true
      → same_caller q r ≡ false
      → (route_identifier r ≢ route_identifier q) ⊎ (remote_address r ≢ remote_address q)
  other-caller q r h h' n = elim (Bool-cases (r.method == q.method && path_of r == path_of q)) [
    | inl e ↦ inr (other-client r q (ground (arith, n, e)))
    | inr e ↦ inl (λ same.
        let (a, b) = split_inj r.method q.method (path_of r) (path_of q) h' h same in
        let a' = (eq_iff r.method q.method).1 a in
        let b' = (eq_iff (path_of r) (path_of q)).1 b in ground (arith, e, a', b'))
  ]

  -- A hit changes a slot by what the slot holds alone.
  slot_cong :
      (i i' r r' a a' : String) (t : ℕ) (c c' : Counters)
      → slot i r a c ≡ slot i r a c'
      → slot i r a (strategy.hit i' r' a' t c).1 ≡ slot i r a (strategy.hit i' r' a' t c').1
  slot_cong i i' r r' a a' t c c' h =
      let other = λ (n : (i' ≢ i) ⊎ ((r' ≢ r) ⊎ (a' ≢ a))).
        strategy.hit_other i' i r' r a' a t c n
        ∙ h
        ∙ sym (strategy.hit_other i' i r' r a' a t c' n) in
      elim (Bool-cases (i' == i)) [
        | inr e ↦ other (inl (ne_of_eq-false i' i e))
        | inl e ↦ elim (Bool-cases (r' == r)) [
          | inr e' ↦ other (inr (inl (ne_of_eq-false r' r e')))
          | inl e' ↦ elim (Bool-cases (a' == a)) [
            | inr e'' ↦ other (inr (inr (ne_of_eq-false a' a e'')))
            | inl e'' ↦
                rw ((eq_iff i' i).0 e, (eq_iff r' r).0 e', (eq_iff a' a).0 e'')
                  (strategy.hit_slot i r a t c c' h)
          ]
        ]
      ]

  slots-own :
      (item : String) (q : RouteRequest) (calls : List Call) (c c' : Counters)
      → no_colon q.method ≡ true
      → All (λ call. no_colon call.asked.method ≡ true) calls
      → SlotOf item q c ≡ SlotOf item q c'
      → SlotOf item q (after_calls calls c) ≡ SlotOf item q (after_calls (own q calls) c')
  slots-own item q [] c c' k ks h = h
  slots-own item q (call ∷ calls) c c' k ks h = elim (Bool-cases (same_caller q call.asked)) [
    | inl e ↦
        let ih =
          slots-own item q calls (hit_by strategy call.item call.asked call.at c).1
            (hit_by strategy call.item call.asked call.at c').1 k ks.1
            (slot_cong item call.item (route_identifier q) (route_identifier call.asked)
              (remote_address q) (remote_address call.asked) call.at c c' h) in
        rw e ih
    | inr e ↦
        let ih =
          slots-own item q calls (hit_by strategy call.item call.asked call.at c).1 c' k ks.1 (
            strategy.hit_other call.item item (route_identifier call.asked) (route_identifier q)
              (remote_address call.asked) (remote_address q) call.at c
              (inr (other-caller q call.asked k ks.0 e))
            ∙ h) in
        rw e ih
  ]

  -- Whatever calls came before, of any limited routes by any clients, with methods that have no colon, a
  -- call is answered as if only the calls of its own client to its own route had come: others do not
  -- use up its limit.
  pub own_calls_count :
      {S A : Type 0} (item : String) (q : RouteRequest) (t : ℕ) (calls : List Call) (c : Counters)
      (handler : Action S A) (s : S)
      → no_colon q.method ≡ true
      → All (λ call. no_colon call.asked.method ≡ true) calls
      → (limited strategy item []
          (("request", request q) ∷ [])
          t
          handler
          (s, after_calls calls c)).0
        ≡ (limited strategy item []
            (("request", request q) ∷ [])
            t
            handler
            (s, after_calls (own q calls) c)).0
  unfolding limited find_request
  own_calls_count item q t calls c handler s k ks =
      ap (λ b. (limit item b handler s).0)
        (strategy.hit_verdict item (route_identifier q) (remote_address q) t (after_calls calls c)
          (after_calls (own q calls) c) (slots-own item q calls c c k ks refl))
