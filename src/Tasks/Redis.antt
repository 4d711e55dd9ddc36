-- ===== src/Tasks/Redis.antt =====
-- The interface of Redis, one operation for each form of command in app/. A command takes the time,
-- in seconds, at which the server runs it.
use parcel_delivery_api.Base.{
  ℕ, ◌+◌, ◌≤◌, ◌<◌, ◌≡◌, ◌≢◌, String, Bool, true, false, Option, none, some,
}

pub record Redis : Type 1 where
  pub State : Type 0
  pub get : String → ℕ → State → Option String
  -- SET key value, with EX where seconds are given
  pub set : String → String → Option ℕ → ℕ → State → State
  -- SET key value EX seconds NX; whether it was set
  pub set_nx : String → String → ℕ → ℕ → State → Bool × State
  pub delete : String → ℕ → State → State
  pub get-set :
      (k v : String) (t t' : ℕ) (s : State) → t ≤ t' → get k t' (set k v none t s) ≡ some v
  pub get-set_within :
      (k v : String) (seconds t t' : ℕ) (s : State)
      → t ≤ t'
      → t' < t + seconds
      → get k t' (set k v (some seconds) t s) ≡ some v
  pub get-set_past :
      (k v : String) (seconds t t' : ℕ) (s : State)
      → t + seconds ≤ t'
      → get k t' (set k v (some seconds) t s) ≡ none
  pub get-set_other :
      (k k' v : String) (ex : Option ℕ) (t t' : ℕ) (s : State)
      → k ≢ k'
      → get k' t' (set k v ex t s) ≡ get k' t' s
  pub set_nx_absent :
      (k v : String) (seconds t : ℕ) (s : State)
      → get k t s ≡ none
      → set_nx k v seconds t s ≡ (true, set k v (some seconds) t s)
  pub set_nx_present :
      (k v w : String) (seconds t : ℕ) (s : State)
      → get k t s ≡ some w
      → set_nx k v seconds t s ≡ (false, s)
  pub get-delete : (k : String) (t t' : ℕ) (s : State) → t ≤ t' → get k t' (delete k t s) ≡ none
  pub get-delete_other :
      (k k' : String) (t t' : ℕ) (s : State) → k ≢ k' → get k' t' (delete k t s) ≡ get k' t' s
