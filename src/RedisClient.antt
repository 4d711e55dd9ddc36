-- ===== src/RedisClient.antt =====
-- app/redis_client/client.py: the one Redis connection of a process, opened when it is first asked for
-- and closed when the process stops. Connections are numbered in the order of their opening. The
-- `await` of `close_redis` lets others run between its test and its assignment, so it is two steps. A
-- connection counts as closed from the second one on, when `aclose()` has returned; what a caller who
-- is given it while it is being closed can do with it is not modelled.
pub mod Tidy
use native.Mathlib.Decide.{ℕ_discrete}
use mathlib.Core.Logic.{ite}
use parcel_delivery_api.Base.{ℕ, suc, ◌≡◌, Bool, true, false, Option, none, some}

-- `current` is the global `_redis`.
pub record Client : Type 0 where
  pub current : Option ℕ
  pub opened : ℕ
  pub is_closed : ℕ → Bool

abbrev pub initial : Client
initial = record { current = none; opened = 0; is_closed = λ c. false }

abbrev pub open_new : Client → ℕ × Client
open_new s = (s.opened, record s { current = some s.opened; opened = suc s.opened })

unfoldable pub get_redis : Client → ℕ × Client
get_redis s = elim s.current [ none ↦ open_new s | some c ↦ (c, s) ]

abbrev pub mark : ℕ → (ℕ → Bool) → ℕ → Bool
mark c f d = ite (ℕ_discrete c d) true (f d)

-- `await _redis.aclose()`, where there is a connection, and then `_redis = None`
abbrev pub close_begins : Client → Option ℕ
close_begins s = s.current

unfoldable pub close_ends : ℕ → Client → Client
close_ends c s = record s { current = none; is_closed = mark c s.is_closed }

-- The client, and the connection whose closing is awaited.
pub record Process : Type 0 where
  pub client : Client
  pub awaited : Option ℕ

-- One call of `close_redis` at a time, as the end of the lifespan makes it; `get_redis` at any time.
pub data Step : Process → Process → Type 0 where
  get : (p : Process) → Step p (record p { client = (get_redis p.client).1 })
  begin_close :
      (p : Process) → p.awaited ≡ none → Step p (record p { awaited = close_begins p.client })
  end_close :
      (p : Process) (c : ℕ)
      → p.awaited ≡ some c
      → Step p (record { client = close_ends c p.client; awaited = none })

pub data Reach : Process → Type 0 where
  start : Reach (record { client = initial; awaited = none })
  next : {p q : Process} → Reach p → Step p q → Reach q
