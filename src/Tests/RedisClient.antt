-- ===== src/Tests/RedisClient.antt =====
-- app/redis_client/client.py
use parcel_delivery_api.Base.{ℕ, ◌<◌, ◌≡◌, ◌⊎◌, refl, true, false, some, none}
use parcel_delivery_api.RedisClient.{
  initial, get_redis, close_ends, Process, get, begin_close, end_close, Reach, start, next,
}
use parcel_delivery_api.RedisClient.Tidy.{no_leak}

-- Opened, and closed while somebody asks for it again.
abbrev open_process : Process
open_process = record { client = (get_redis initial).1; awaited = none }

abbrev closing : Process
closing = record { client = (get_redis initial).1; awaited = some 0 }

abbrev asked : Process
asked = record { client = (get_redis (get_redis initial).1).1; awaited = some 0 }

abbrev closed : Process
closed = record { client = close_ends 0 (get_redis (get_redis initial).1).1; awaited = none }

closed-Reach : Reach closed
unfolding get_redis
closed-Reach =
    next
      (next
        (next (next start (get (record { client = initial; awaited = none })))
          (begin_close open_process refl))
        (get closing))
      (end_close asked 0 refl)

no_leak_example :
    ((c : ℕ)
      → c < closed.client.opened
      → (closed.client.current ≡ some c) ⊎ (closed.client.is_closed c ≡ true))
    × ((get_redis closed.client).1.is_closed (get_redis closed.client).0 ≡ false)
no_leak_example = no_leak closed closed-Reach
