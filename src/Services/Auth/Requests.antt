-- ===== src/Services/Auth/Requests.antt =====
-- Histories: the requests that change users and tokens, one after another, each with its time and
-- what was drawn at random for it. A request that raises ends there, and the next one goes on.
use parcel_delivery_api.Base.{ℕ, String, List, [], ◌∷◌}
use parcel_delivery_api.Core.Settings.{Settings}
use parcel_delivery_api.Core.Crypto.{Crypto}
use parcel_delivery_api.Core.Security.{Draw}
use parcel_delivery_api.Db.Sql.{Sql}
use parcel_delivery_api.Models.RefreshToken.{RefreshToken}
use parcel_delivery_api.Models.Database.{Database}
use parcel_delivery_api.Services.Auth.{register, login, refresh, logout, logout_all}

pub data Request : Type 0 where
  -- email, password, salt and user id
  registration : String → String → String → String → ℕ → Draw → Request
  authentication : String → String → ℕ → Draw → Request
  rotation : String → ℕ → Draw → Request
  revocation : String → ℕ → Request
  revocation_of_all : String → ℕ → Request

-- What a requirement on the values drawn for a new family says of a request.
abbrev pub FreshRequest :
    (sql : Sql) → (Draw → sql.Table RefreshToken → Type 0) → Request → Database sql → Type 0
FreshRequest sql Fresh (registration email password salt id now draw) s =
    Fresh draw s.refresh_tokens
FreshRequest sql Fresh (authentication email password now draw) s = Fresh draw s.refresh_tokens
FreshRequest sql Fresh _ s = Unit

module _ (sql : Sql) (crypto : Crypto) (settings : Settings) where
  unfoldable pub step : Request → Database sql → Database sql
  step (registration email password salt id now draw) s =
      (register sql crypto settings email password salt id now draw s).1
  step (authentication email password now draw) s =
      (login sql crypto settings email password now draw s).1
  step (rotation raw now draw) s = (refresh sql crypto settings raw now draw s).1
  step (revocation raw now) s = (logout sql crypto settings raw now s).1
  step (revocation_of_all user_id now) s = (logout_all sql crypto settings user_id now s).1

  unfoldable pub serve : List Request → Database sql → Database sql
  serve [] s = s
  serve (r ∷ rs) s = serve rs (step r s)

  module _ (Fresh : Draw → sql.Table RefreshToken → Type 0) where
    -- Each request of the history meets the requirement at its turn.
    abbrev pub FreshHistory : List Request → Database sql → Type 0
    FreshHistory [] s = Unit
    FreshHistory (r ∷ rs) s = FreshRequest sql Fresh r s × FreshHistory rs (step r s)
