-- ===== src/Api/Cached/Isolation.antt =====
-- What a cached reply can hold.
use parcel_delivery_api.Base.{
  ℕ, ◌≤◌, ◌≡◌, ◌⊎◌, inl, inr, sym, ap, ◌∙◌, String, Bool-cases, true, some, ◌==◌, arith, eq_iff,
  ne_of_eq-false,
}
use parcel_delivery_api.Core.Action.{Action, Result, ok}
use parcel_delivery_api.Core.Settings.{Settings}
use parcel_delivery_api.Core.Crypto.{Crypto}
use parcel_delivery_api.Tasks.Redis.{Redis}
use parcel_delivery_api.Api.Http.{HttpRequest}
use parcel_delivery_api.Api.Cache.{Json, KeyText}
use parcel_delivery_api.Api.Cached.{
  Bearer, KeyLaws, OnePayload, Visit, owner_of, key_of, serve, World, visit, elsewhere, Reach,
  start, next, Past, now-Past,
}
use parcel_delivery_api.Api.Cached.Keys.{
  given-some, ok_inj, raised-ne, stored_text, one_owner, same_owner, key-inj,
}
use parcel_delivery_api.Api.Cached.Outcome.{Outcome, fails, found, ran}
use parcel_delivery_api.Api.Cached.Outcome

module _ (crypto : Crypto) (settings : Settings) (bearer : Bearer) (keys : KeyText) (redis : Redis)
    {S A : Type 0} (json : Json A) (prefix item : String)
    (handler : String → String → String → Action S A)
    (Occurs : HttpRequest → String → String → Type 0) where
  -- What the route answers an owner on one of some states of the database
  pub record Answered (P : S → Type 0) (path query owner : String) (a : A) : Type 0 where
    pub db : S
    pub past : P db
    pub answers : (handler path query owner db).0 ≡ ok a

  abbrev owner_at : HttpRequest → ℕ → Result String
  owner_at request now = owner_of crypto settings bearer request now

  abbrev key : HttpRequest → String → String → String
  key request path query =
      key_of crypto settings bearer keys redis json prefix item handler request path query

  abbrev run : Visit → Action (S × redis.State) A
  run v = serve crypto settings bearer keys redis json prefix item handler v

  abbrev W : Type 0
  W = World crypto settings bearer keys redis json prefix item handler

  abbrev Ends : Visit → S → redis.State → Result A → S × redis.State → Type 0
  Ends = Outcome.Outcome crypto settings bearer keys redis json prefix item handler

  -- Whose reply an entry of the cache holds
  record Entry (P : S → Type 0) (request : HttpRequest) (path query raw : String) : Type 0 where
    pub a : A
    pub owner : String
    pub now : ℕ
    pub owned : owner_at request now ≡ ok owner
    pub text : raw ≡ json.dumps a
    pub answered : Answered P path query owner a

  later-Entry :
      (P Q : S → Type 0) (request : HttpRequest) (path query raw : String)
      → ((d : S) → P d → Q d)
      → Entry P request path query raw
      → Entry Q request path query raw
  later-Entry P Q request path query raw f e = record {
    a = e.a;
    owner = e.owner;
    now = e.now;
    owned = e.owned;
    text = e.text;
    answered = record {
      db = e.answered.db;
      past = f e.answered.db e.answered.past;
      answers = e.answered.answers;
    };
  }

  abbrev Inv : (S → Type 0) → ℕ → redis.State → Type 0
  Inv P clock r =
      (request : HttpRequest) (path query : String) (t : ℕ) (raw : String)
      → Occurs request path query
      → clock ≤ t
      → redis.get (key request path query) t r ≡ some raw
      → Entry P request path query raw

  module _ (jwt : settings.auth_required ≡ true) (laws : KeyLaws keys settings Occurs) where
    Inv-set :
        (P : S → Type 0) (v : Visit) (s : S) (r : redis.State) (clock : ℕ) (owner : String) (a : A)
        → owner_at v.request v.now ≡ ok owner
        → (handler v.path v.query owner s).0 ≡ ok a
        → P s
        → Occurs v.request v.path v.query
        → clock ≤ v.stored_at
        → Inv P clock r
        → Inv P v.stored_at (
            redis.set
              (key v.request v.path v.query)
              (json.dumps a)
              (some settings.cache_ttl_default)
              v.stored_at
              r)
    Inv-set P v s r clock owner a o h past here le inv request path query t raw there lt g =
        let k0 = key v.request v.path v.query in
        let k = key request path query in
        let ttl = settings.cache_ttl_default in
        elim (Bool-cases (k0 == k)) [
          | inr ne ↦ inv request path query t raw there (omega arith) (
              sym (
                redis.get-set_other k0 k (json.dumps a) (some ttl) v.stored_at t r
                  (ne_of_eq-false k0 k ne))
              ∙ g)
          | inl e ↦
              let same : k0 ≡ k = (eq_iff k0 k).0 e in
              let (token, p, q) =
                key-inj crypto settings bearer jwt keys Occurs laws prefix v.request request v.path
                  path v.query query here there same in
              record {
                a = a;
                owner = owner;
                now = v.now;
                owned =
                    sym (same_owner crypto settings bearer jwt v.request request v.now token) ∙ o;
                text = sym (
                    stored_text redis k0 (json.dumps a) raw ttl v.stored_at t r lt (
                      ap (λ x. redis.get x t (redis.set k0 (json.dumps a) (some ttl) v.stored_at r))
                        same
                      ∙ g));
                answered = record {
                  db = s;
                  past = past;
                  answers =
                      sym (
                        ap (λ x. (handler x v.query owner s).0) p
                        ∙ ap (λ y. (handler path y owner s).0) q)
                      ∙ h;
                };
              }
        ]

    Inv-Outcome :
        (P : S → Type 0) (v : Visit) (s : S) (r : redis.State) (clock : ℕ) (q : Result A)
        (u : S × redis.State)
        → P s
        → Occurs v.request v.path v.query
        → clock ≤ v.stored_at
        → Inv P clock r
        → Ends v s r q u
        → Inv P v.stored_at u.1
    Inv-Outcome P v s r clock q u past here le inv (fails e s') request path query t raw there lt
          g =
        inv request path query t raw there (omega arith) g
    Inv-Outcome P v s r clock q u past here le inv (found owner text o c) request path query t raw
          there lt g =
        inv request path query t raw there (omega arith) g
    Inv-Outcome P v s r clock q u past here le inv (ran owner a s' o h) request path query t raw
          there lt g =
        Inv-set P v s r clock owner a o h past here le inv request path query t raw there lt g

    Reach-Inv :
        {w : W} (reach : Reach crypto settings bearer keys redis json prefix item handler Occurs w)
        → Inv
            (Past crypto settings bearer keys redis json prefix item handler Occurs reach)
            w.clock
            w.cache
    Reach-Inv (start w empty) request path query t raw there le g =
        let none_there = empty request path query t in ground (arith, none_there, g)
    Reach-Inv (next before (visit w v here le le')) request path query t raw there lt g =
        let before_past =
          Past crypto settings bearer keys redis json prefix item handler Occurs before in
        later-Entry before_past _ request path query raw (λ d p. inr p)
          (Inv-Outcome before_past v w.db w.cache w.clock (run v (w.db, w.cache)).0
            (run v (w.db, w.cache)).1
            (now-Past crypto settings bearer keys redis json prefix item handler Occurs before) here
            (omega arith) (Reach-Inv before)
            (Outcome.visit-Outcome crypto settings bearer keys redis json prefix item handler v w.db
              w.cache)
            request path query t raw there lt g)
    Reach-Inv (next before (elsewhere w t s r le same)) request path query t' raw there le' g =
        later-Entry _ _ request path query raw (λ d p. inr p)
          (Reach-Inv before request path query t' raw there (omega arith)
            (sym (same request path query t') ∙ g))

    -- The owner of a visit, and an answer of the route to that owner, of which the reply is the value or
    -- its JSON form.
    pub record FromOwn (P : S → Type 0) (v : Visit) (reply : A) : Type 0 where
      pub owner : String
      pub a : A
      pub owned : owner_at v.request v.now ≡ ok owner
      pub answered : Answered P v.path v.query owner a
      pub same : (reply ≡ a) ⊎ (reply ≡ json.as_json a)

    reply-FromOwn :
        (P : S → Type 0) (v : Visit) (s : S) (r : redis.State) (clock : ℕ) (q : Result A)
        (u : S × redis.State) (reply : A)
        → OnePayload crypto
        → P s
        → Occurs v.request v.path v.query
        → clock ≤ v.read_at
        → Inv P clock r
        → Ends v s r q u
        → q ≡ ok reply
        → FromOwn P v reply
    reply-FromOwn P v s r clock q u reply one past here le inv (fails e s') h =
        absurd (raised-ne e reply h)
    reply-FromOwn P v s r clock q u reply one past here le inv (found owner raw o c) h =
        let entry =
          inv v.request v.path v.query v.read_at raw here le
            (given-some (redis.get (key v.request v.path v.query) v.read_at r) raw c) in
        let json_form = ap json.loads entry.text ∙ json.loads-dumps entry.a in
        record {
          owner = entry.owner;
          a = entry.a;
          owned =
              o
              ∙ ap ok (
                  one_owner crypto settings bearer jwt one v.request v.now entry.now owner
                    entry.owner o entry.owned);
          answered = entry.answered;
          same = inr (sym (ok_inj (json.loads raw) reply h) ∙ json_form);
        }
    reply-FromOwn P v s r clock q u reply one past here le inv (ran owner a s' o k) h = record {
      owner = owner;
      a = a;
      owned = o;
      answered = record { db = s; past = past; answers = k };
      same = inl (sym (ok_inj a reply h));
    }

    -- A reply of the route, from Redis or not, is an answer of the handler to the owner of this very
    -- request, on a state that the database had.
    pub served-FromOwn :
        (w : W) (v : Visit) (reply : A)
        → OnePayload crypto
        → (reach : Reach crypto settings bearer keys redis json prefix item handler Occurs w)
        → Occurs v.request v.path v.query
        → w.clock ≤ v.read_at
        → (run v (w.db, w.cache)).0 ≡ ok reply
        → FromOwn
            (Past crypto settings bearer keys redis json prefix item handler Occurs reach)
            v
            reply
    served-FromOwn w v reply one reach here le h =
        reply-FromOwn (Past crypto settings bearer keys redis json prefix item handler Occurs reach)
          v w.db w.cache w.clock (run v (w.db, w.cache)).0 (run v (w.db, w.cache)).1 reply one
          (now-Past crypto settings bearer keys redis json prefix item handler Occurs reach) here le
          (Reach-Inv reach)
          (Outcome.visit-Outcome crypto settings bearer keys redis json prefix item handler v w.db
            w.cache)
          h
