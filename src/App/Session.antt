-- ===== src/App/Session.antt =====
-- The session in requests and pages: web/src/app.tsx, web/src/wrappers/AuthGuard.tsx and
-- web/src/stores/authStore.ts.
use linkflow_v.Prelude.{
  String, true, false, some, ◌∷◌, ◌==◌, ◌≡◌, ◌≢◌, ◌⊎◌, inl, inr, refl, arith, eq_iff, if◌then◌else◌,
  Bool-cases, ◌↔◌, Option-cases, List, [], All, Option, none, ap, ◌∙◌,
}
use linkflow_v.Js.Json.{Json, Fields, str, num, obj}
use linkflow_v.Js.Object.{get}
use linkflow_v.Js.Object.Laws.{get-put}
use linkflow_v.Js.Number.{Numbers}
use linkflow_v.Stores.Auth.{AuthState, AuthResult, initial, set_session}
use linkflow_v.App.{
  PageLocation, AppState, RequestErrorLike, RequestConfig, outlet, navigate, ◌⧺◌, login_path,
  is_unauthorized, get_request_error_status, is_api_error_body, has_field, error_handler,
  headers_of, add_authorization, auth_guard,
}

module _ {N : Type 0} (ops : Numbers N) where
  -- An error of a response whose status is 401, or that has no status and a body with the code 401.
  pub data IsUnauthorized : RequestErrorLike N → Type 0 where
    with_status :
        (message body : Option (Json N)) (x : N)
        → ops.same x (ops.of_nat 401) ≡ true
        → IsUnauthorized (record {
          message = message;
          response = some (record { status = some (num x); response_data = body });
        })
    with_code :
        (message : Option (Json N)) (body : Fields N) (x : N)
        → get "code" body ≡ some (num x)
        → ops.same x (ops.of_nat 401) ≡ true
        → IsUnauthorized (record {
          message = message;
          response = some (record { status = none; response_data = some (obj body) });
        })

  IsUnauthorized-is_unauthorized :
      (error : RequestErrorLike N)
      → IsUnauthorized error
      → is_unauthorized ops (get_request_error_status error) ≡ true
  unfolding get_request_error_status is_api_error_body
  IsUnauthorized-is_unauthorized _ (with_status message body x h) = h
  IsUnauthorized-is_unauthorized _ (with_code message body x coded h) =
      rw coded (elim (Bool-cases (has_field (get "msg" body))) [
        | inl told ↦ rw told h
        | inr untold ↦ rw untold h
      ])

  module _ (encode : String → String) where
    unfoldable pub handle_errors : List (RequestErrorLike N) → AppState → AppState
    handle_errors [] app = app
    handle_errors (error ∷ errors) app = handle_errors errors (error_handler encode ops error app)

    abbrev redirected : AppState → AppState
    redirected app =
        let path = app.location.pathname ⧺ (app.location.search ⧺ app.location.hash) in
        record app {
          auth = initial;
          location = record { pathname = "/login"; search = "?redirect=" ⧺ encode path; hash = "" };
          pushed = ("/login?redirect=" ⧺ encode path) ∷ app.pushed;
        }

    error_handler-redirected :
        (error : RequestErrorLike N) (app : AppState)
        → IsUnauthorized error
        → app.location.pathname ≢ "/login"
        → app.location.pathname ≢ "/register"
        → error_handler encode ops error app ≡ redirected app
    unfolding error_handler initial
    error_handler-redirected error app u l r =
        let login : (app.location.pathname == "/login") ≡ false =
          ground (arith, eq_iff app.location.pathname "/login") in
        let register : (app.location.pathname == "/register") ≡ false =
          ground (arith, eq_iff app.location.pathname "/register") in
        rw (IsUnauthorized-is_unauthorized error u, login, register, error_handler) refl

    handle_errors-login :
        (errors : List (RequestErrorLike N)) (app : AppState)
        → All IsUnauthorized errors
        → app.location.pathname ≡ "/login"
        → handle_errors errors app ≡ app
    unfolding handle_errors error_handler
    handle_errors-login [] app us h = refl
    handle_errors-login (error ∷ errors) app (u, us) h =
        let here : (app.location.pathname == "/login") ≡ true = (eq_iff _ _).1 h in
        rw (IsUnauthorized-is_unauthorized error u, here) (handle_errors-login errors app us h)

    -- Any number of answers with 401, from one on, end the session and lead once to the login page,
    -- with the location at the first of them to return to; there are no notifications. It is
    -- assumed that this location is neither the login page nor the registration.
    pub handle_errors-redirected :
        (error : RequestErrorLike N) (errors : List (RequestErrorLike N)) (app : AppState)
        → IsUnauthorized error
        → All IsUnauthorized errors
        → app.location.pathname ≢ "/login"
        → app.location.pathname ≢ "/register"
        → handle_errors (error ∷ errors) app ≡ redirected app
    unfolding handle_errors
    handle_errors-redirected error errors app u us l r =
        ap (handle_errors errors) (error_handler-redirected error app u l r)
        ∙ handle_errors-login errors (redirected app) us refl

-- A session from a login with a token opens the guarded pages and puts the token on every request,
-- where it replaces an older `Authorization` and leaves the other headers.
pub set_session-granted :
    (encode : String → String) {N : Type 0} (result : AuthResult) (s : AuthState) (l : PageLocation)
    (config : RequestConfig N) (k : String)
    → result.access_token ≢ ""
    → (auth_guard encode (set_session result s) l ≡ outlet)
      × (get k (headers_of (add_authorization (set_session result s) config).headers) ≡ (
          if "Authorization" == k
          then some (str ("Bearer " ⧺ result.access_token))
          else get k (headers_of config.headers)))
unfolding auth_guard add_authorization set_session
set_session-granted encode result s l config k h = elim (Bool-cases (result.access_token == "")) [
  | inl p ↦ absurd (h ((eq_iff _ _).0 p))
  | inr p ↦ (rw (p, auth_guard) refl, rw (p, headers_of) (get-put "Authorization" k _ _))
]

-- A guarded page is shown exactly if there is a token that is not empty; else the guard leads to
-- the login page with the location to return to.
pub auth_guard-eq-outlet_iff :
    (encode : String → String) (auth : AuthState) (l : PageLocation)
    → ((auth_guard encode auth l ≡ outlet)
        ↔ ((token : String) × (auth.access_token ≡ some token) × (token ≢ "")))
      × ((auth_guard encode auth l ≡ outlet)
          ⊎ (auth_guard encode auth l ≡ navigate (login_path encode (l.pathname ⧺ l.search))))
unfolding auth_guard
auth_guard-eq-outlet_iff encode auth l = elim (Option-cases auth.access_token) [
  | inl none_there ↦ (
    (λ h. let h' = (rw (none_there, auth_guard) at h) in cc, λ (token, e, n). cc),
    inr (rw (none_there, auth_guard) refl),
  )
  | inr (token, e) ↦ elim (Bool-cases (token == "")) [
    | inl p ↦ (
      (
        λ h. let h' = (rw (e, auth_guard, p) at h) in cc,
        λ (t, e', n). absurd (n (let same : t ≡ token = cc in rw same ((eq_iff token "").0 p))),
      ),
      inr (rw (e, auth_guard, p) refl),
    )
    | inr p ↦ (
      (
        λ h. (token, e, λ q. ground (arith, (eq_iff token "").1 q)),
        λ k. rw (e, auth_guard, p) refl,
      ),
      inl (rw (e, auth_guard, p) refl),
    )
  ]
]
