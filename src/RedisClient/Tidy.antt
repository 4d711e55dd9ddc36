-- ===== src/RedisClient/Tidy.antt =====
-- No connection is lost, and none is used after it has been closed.
use native.Mathlib.Decide.{ℕ_discrete}
use mathlib.Core.Logic.{if_pos, if_neg}
use parcel_delivery_api.Base.{
  ℕ, ◌<◌, ◌≡◌, ◌≢◌, ◌⊎◌, inl, inr, sym, ap, ◌∙◌, Bool, true, false, none, some, arith, Option-cases,
  Bool-cases,
}
use parcel_delivery_api.RedisClient.{
  Client, open_new, get_redis, close_ends, mark, Process, get, begin_close, end_close, Reach, start,
  next,
}

-- The connection in use is open, and every other one that was opened is closed.
pub record IsTidy (s : Client) : Type 0 where
  pub in_use : (c : ℕ) → s.current ≡ some c → (c < s.opened) × (s.is_closed c ≡ false)
  pub others : (c : ℕ) → c < s.opened → (s.current ≡ some c) ⊎ (s.is_closed c ≡ true)
  pub not_yet : (c : ℕ) → s.is_closed c ≡ true → c < s.opened

record Inv (p : Process) : Type 0 where
  tidy : IsTidy p.client
  awaits : (c : ℕ) → p.awaited ≡ some c → p.client.current ≡ some c

mark_same : (c d : ℕ) (f : ℕ → Bool) → c ≡ d → mark c f d ≡ true
mark_same c d f e = if_pos _ e true (f d)

mark_other : (c d : ℕ) (f : ℕ → Bool) → c ≢ d → mark c f d ≡ f d
mark_other c d f n = if_neg _ n true (f d)

open_new-IsTidy : (s : Client) → s.current ≡ none → IsTidy s → IsTidy (open_new s).1
open_new-IsTidy s e h = record {
  in_use = λ d f.
      let same : s.opened ≡ d = ground (arith, f) in
      (
        omega (arith, same),
        elim (Bool-cases (s.is_closed d)) [
          | inl closed ↦ absurd (omega (arith, h.not_yet d closed, same))
          | inr still ↦ still
        ],
      );
  others = λ d lt. elim (ℕ_discrete s.opened d) [
    | yes same ↦ inl (ap some same)
    | no n ↦ elim (h.others d (ground (arith, n))) [
      | inl f ↦ absurd (ground (arith, e, f))
      | inr closed ↦ inr closed
    ]
  ];
  not_yet = λ d f. omega (arith, h.not_yet d f);
}

get_redis-IsTidy : (s : Client) → IsTidy s → IsTidy (get_redis s).1
unfolding get_redis
get_redis-IsTidy s h = elim (Option-cases s.current) [
  | inl e ↦ rw (get_redis, e) (open_new-IsTidy s e h)
  | inr (c, e) ↦ rw (get_redis, e) h
]

-- What `get_redis` returns is then the connection in use.
get_redis-current : (s : Client) → (get_redis s).1.current ≡ some (get_redis s).0
unfolding get_redis
get_redis-current s = ground arith

close_ends-IsTidy : (s : Client) (c : ℕ) → s.current ≡ some c → IsTidy s → IsTidy (close_ends c s)
unfolding close_ends
close_ends-IsTidy s c e h = record {
  in_use = λ d f. absurd (ground (arith, f));
  others = λ d lt. elim (ℕ_discrete c d) [
    | yes same ↦ inr (mark_same c d s.is_closed same)
    | no n ↦ elim (h.others d lt) [
      | inl f ↦ absurd (n (ground (arith, e, f)))
      | inr closed ↦ inr (mark_other c d s.is_closed n ∙ closed)
    ]
  ];
  not_yet = λ d f. elim (ℕ_discrete c d) [
    | yes same ↦ omega (arith, (h.in_use c e).0, same)
    | no n ↦ h.not_yet d (sym (mark_other c d s.is_closed n) ∙ f)
  ];
}

Reach-Inv : (p : Process) → Reach p → Inv p
unfolding get_redis close_ends
Reach-Inv _ start = record {
  tidy = record {
    in_use = λ c f. absurd (ground (arith, f));
    others = λ c lt. absurd (omega (arith, lt));
    not_yet = λ c f. absurd (ground (arith, f));
  };
  awaits = λ c f. absurd (ground (arith, f));
}
Reach-Inv _ (next r (get p)) =
    let h = Reach-Inv p r in
    record { tidy = get_redis-IsTidy p.client h.tidy; awaits = λ c f. ground (arith, h.awaits c f) }
Reach-Inv _ (next r (begin_close p e)) =
    let h = Reach-Inv p r in record { tidy = h.tidy; awaits = λ c f. f }
Reach-Inv _ (next r (end_close p c e)) =
    let h = Reach-Inv p r in
    record {
      tidy = close_ends-IsTidy p.client c (h.awaits c e) h.tidy;
      awaits = λ d f. absurd (ground (arith, f));
    }

-- Whatever order `get_redis` and one `close_redis` after another run in: every connection that was opened
-- is the one in use or is closed, and what `get_redis` returns is open.
pub no_leak :
    (p : Process)
    → Reach p
    → ((c : ℕ) → c < p.client.opened → (p.client.current ≡ some c) ⊎ (p.client.is_closed c ≡ true))
      × ((get_redis p.client).1.is_closed (get_redis p.client).0 ≡ false)
no_leak p r =
    let h = (Reach-Inv p r).tidy in
    (
      h.others,
      ((get_redis-IsTidy p.client h).in_use (get_redis p.client).0 (get_redis-current p.client)).1,
    )
