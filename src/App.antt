-- ===== src/App.antt =====
-- The application's handling of requests and pages: web/src/app.tsx and
-- web/src/wrappers/AuthGuard.tsx. Router and notifications are third-party: a pushed path and a
-- shown notification are recorded.
pub mod Session
mod Examples
use Prim.Native.String
use linkflow_v.Prelude.{
  ℕ, String, Bool, true, false, ◌||◌, ◌&&◌, not, Option, none, some, List, [], ◌∷◌, ◌==◌,
  if◌then◌else◌,
}
use linkflow_v.Js.Json.{Json, str, num, obj, Fields, end}
use linkflow_v.Js.Object.{get, put}
use linkflow_v.Js.Number.{Numbers}
use linkflow_v.Stores.Auth.{AuthState, clear_session}

-- `RequestErrorLike`: the parts of a caught value that are read.
pub record ResponseLike (N : Type 0) : Type 0 where
  pub status : Option (Json N)
  pub response_data : Option (Json N)

pub record RequestErrorLike (N : Type 0) : Type 0 where
  pub message : Option (Json N)
  pub response : Option (ResponseLike N)

pub record PageLocation : Type 0 where
  pub pathname : String
  pub search : String
  pub hash : String

pub record Notification : Type 0 where
  pub message : String
  pub description : String

pub record AppState : Type 0 where
  pub auth : AuthState
  pub location : PageLocation
  pub pushed : List String
  pub notified : List Notification

infixr 65 ◌⧺◌
abbrev pub ◌⧺◌ : String → String → String
a ⧺ b = String.◌++◌ a b

abbrev pub when {ℓ} : {A : Type ℓ} → Bool → Option A → Option A
when true a = a
when false a = none

abbrev pub or_message : Option String → String
or_message none = "Request failed"
or_message (some s) = if s == "" then "Request failed" else s

module _ {N : Type 0} where
  -- `error.response?.data`.
  abbrev pub body_of : RequestErrorLike N → Option (Json N)
  body_of error = elim error.response [ none ↦ none | some r ↦ r.response_data ]

  abbrev pub status_of : RequestErrorLike N → Option (Json N)
  status_of error = elim error.response [ none ↦ none | some r ↦ r.status ]

  abbrev pub has_field : Option (Json N) → Bool
  has_field none = false
  has_field (some v) = true

  unfoldable pub is_api_error_body : Option (Json N) → Bool
  is_api_error_body (some (obj body)) = has_field (get "msg" body) || has_field (get "code" body)
  is_api_error_body value = false

  -- The own property of a body that passed `isApiErrorBody`.
  abbrev pub body_field : String → Option (Json N) → Option (Json N)
  body_field k (some (obj body)) = get k body
  body_field k value = none

  abbrev pub as_text : Option (Json N) → Option String
  as_text (some (str s)) = some s
  as_text value = none

  abbrev pub as_number : Option (Json N) → Option N
  as_number (some (num x)) = some x
  as_number value = none

  unfoldable pub get_request_error_message : RequestErrorLike N → String
  unfolding is_api_error_body
  get_request_error_message error =
      elim (when (is_api_error_body (body_of error)) (as_text (body_field "msg" (body_of error)))) [
        | some s ↦ s
        | none ↦ or_message (as_text error.message)
      ]

  unfoldable pub get_request_error_status : RequestErrorLike N → Option N
  unfolding is_api_error_body
  get_request_error_status error = elim (as_number (status_of error)) [
    | some x ↦ some x
    | none ↦
        when (is_api_error_body (body_of error)) (as_number (body_field "code" (body_of error)))
  ]

abbrev pub is_unauthorized : {N : Type 0} → Numbers N → Option N → Bool
is_unauthorized ops none = false
is_unauthorized ops (some x) = ops.same x (ops.of_nat 401)

-- `encode` is `encodeURIComponent`.
module _ (encode : String → String) where
  abbrev pub login_path : String → String
  login_path redirect = "/login?redirect=" ⧺ encode redirect

  -- `history.push` changes the present location at once; `encodeURIComponent` leaves no `?` and no `#`.
  abbrev pub login_location : String → PageLocation
  login_location redirect = record {
    pathname = "/login";
    search = "?redirect=" ⧺ encode redirect;
    hash = "";
  }

  unfoldable pub redirect_to_login : AppState → AppState
  unfolding clear_session
  redirect_to_login app =
      let pathname = app.location.pathname in
      let redirect = pathname ⧺ (app.location.search ⧺ app.location.hash) in
      if pathname == "/login" || pathname == "/register" then app else record app {
        auth = clear_session app.auth;
        location = login_location redirect;
        pushed = login_path redirect ∷ app.pushed;
      }

  module _ {N : Type 0} (ops : Numbers N) where
    unfoldable pub error_handler : RequestErrorLike N → AppState → AppState
    unfolding redirect_to_login
    error_handler error app =
        if is_unauthorized ops (get_request_error_status error)
        then redirect_to_login app
        else record app {
          notified =
              record { message = "Request failed"; description = get_request_error_message error }
              ∷ app.notified;
        }

-- A token that is not null and not empty.
abbrev pub usable_token : Option String → Option String
usable_token none = none
usable_token (some token) = if token == "" then none else some token

pub record RequestConfig (N : Type 0) : Type 0 where
  pub headers : Option (Fields N)
  pub rest : Fields N

abbrev pub headers_of : {N : Type 0} → Option (Fields N) → Fields N
headers_of none = end
headers_of (some h) = h

unfoldable pub add_authorization : {N : Type 0} → AuthState → RequestConfig N → RequestConfig N
add_authorization auth config = elim (usable_token auth.access_token) [
  | none ↦ config
  | some token ↦ record config {
    headers = some (put "Authorization" (str ("Bearer " ⧺ token)) (headers_of config.headers));
  }
]

-- What the guard renders: the page, or a change of the location.
pub data Guarded : Type 0 where
  outlet : Guarded
  navigate : String → Guarded

unfoldable pub auth_guard : (String → String) → AuthState → PageLocation → Guarded
auth_guard encode auth location = elim (usable_token auth.access_token) [
  | none ↦ navigate (login_path encode (location.pathname ⧺ location.search))
  | some token ↦ outlet
]
