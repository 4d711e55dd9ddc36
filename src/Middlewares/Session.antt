-- ===== src/Middlewares/Session.antt =====
-- app/middlewares/session.py, and its installation in app/main.py. A fresh session id is the text of a
-- UUID whose number is an argument. The names of headers are compared as the source writes them.
pub mod Anonymous
use parcel_delivery_api.Base.{
  ℕ, String, Bool, true, false, Option, none, some, ◌==◌, not, if◌then◌else◌,
}
use parcel_delivery_api.Core.Action.{Action, Result, ok, raised}
use parcel_delivery_api.Core.Settings.{Settings}
use parcel_delivery_api.Core.Uuid.{is_uuid, uuid_text}
use parcel_delivery_api.Api.Http.{HttpRequest, given}

-- What a request comes to, and the headers of its response.
pub record HttpResponse (A : Type 0) : Type 0 where
  pub body : Result A
  pub headers : String → Option String

-- `response.headers[name] = value`
abbrev pub set_header : String → String → (String → Option String) → String → Option String
set_header name value headers other = if name == other then some value else headers other

abbrev pub session_header : String
session_header = "X-Session-Id"

abbrev pub sunset_header : String
sunset_header = "Wed, 09 Dec 2026 00:00:00 GMT"

-- The session of a request: the header's text as it stands if Python reads it as a UUID, or a new one
unfoldable pub session_of : ℕ → HttpRequest → String
session_of fresh request = elim (given (request.headers session_header)) [
  | none ↦ uuid_text fresh
  | some session ↦ if is_uuid session then session else uuid_text fresh
]

-- `call_next`, as the next component answers
abbrev pub App : Type 0 → Type 0 → Type 0
App S A = HttpRequest → S → HttpResponse A × S

module _ {A : Type 0} where
  abbrev pub with_session_headers : String → HttpResponse A → HttpResponse A
  with_session_headers session response = record response {
    headers =
        set_header "Sunset" sunset_header
          (set_header "Deprecation" "true" (set_header session_header session response.headers));
  }

module _ {S A : Type 0} where
  unfoldable pub assign_session_id : ℕ → App S A → App S A
  unfolding session_of
  assign_session_id fresh call_next request s =
      let session = session_of fresh request in
      let (response, s') = call_next (record request { session_id = some session }) s in
      (with_session_headers session response, s')

  -- `if not settings.AUTH_REQUIRED: app.middleware("http")(assign_session_id)`
  unfoldable pub installed : Settings → ℕ → App S A → App S A
  installed settings fresh call_next =
      if settings.auth_required then call_next else assign_session_id fresh call_next

  -- A route: its handler runs with what its dependency resolved, if that lets the request through.
  abbrev pub endpoint : (HttpRequest → Result String) → (String → Action S A) → App S A
  endpoint guard handler request s = elim (guard request) [
    | raised e ↦ (record { body = raised e; headers = λ name. none }, s)
    | ok owner ↦ let (r, s') = handler owner s in (record { body = r; headers = λ name. none }, s')
  ]
