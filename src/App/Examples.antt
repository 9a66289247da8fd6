-- ===== src/App/Examples.antt =====
-- Runs of the session handling of web/src/app.tsx and web/src/wrappers/AuthGuard.tsx, and of the
-- client of web/src/services/http/client.ts.
use linkflow_v.Prelude.{
  ℕ, String, true, false, none, some, eqb, [], ◌∷◌, ◌==◌, ◌≡◌, ◌≢◌, ◌⊎◌, ◌↔◌, ◌≤◌, ◌<◌, refl, arith,
  eq_iff, if◌then◌else◌,
}
use linkflow_v.Js.Json.{str, num, obj, end, field}
use linkflow_v.Js.Object.{get}
use linkflow_v.Js.Number.{Numbers}
use linkflow_v.Js.Samples.{Small, one}
use linkflow_v.Stores.Auth.{AuthResult, initial, set_session}
use linkflow_v.Http.{
  ApiResponse, Outcome, responded, returned, api_request, api_request-eq-returned_iff,
}
use linkflow_v.App.{
  RequestErrorLike, PageLocation, AppState, RequestConfig, outlet, navigate, ◌⧺◌, login_path,
  get_request_error_message, headers_of, add_authorization, auth_guard,
}
use linkflow_v.App.Session.{
  with_status, with_code, handle_errors, handle_errors-redirected, set_session-granted,
  auth_guard-eq-outlet_iff,
}

abbrev page : PageLocation
page = record { pathname = "/admin"; search = "?page=2"; hash = "" }

abbrev app : AppState
app = record { auth = initial; location = page; pushed = []; notified = [] }

abbrev failed : RequestErrorLike Small
failed = record {
  message = some (str "Network Error");
  response = some (record {
    status = some (num one);
    response_data = some (obj (field "msg" (str "no such device") end));
  });
}

failed_message : get_request_error_message failed ≡ "no such device"
unfolding get_request_error_message get
failed_message = refl

abbrev identity : String → String
identity s = s

-- Natural numbers with their comparison, which is all of numbers that the handler uses.
abbrev naturals : Numbers ℕ
naturals = record {
  of_text = λ text. 0;
  to_text = λ n. "";
  of_nat = λ n. n;
  same = eqb;
  is_finite = λ n. true;
  is_integer = λ n. true;
  is_negative = λ n. false;
}

abbrev denied : RequestErrorLike ℕ
denied = record {
  message = none;
  response = some (record { status = some (num 401); response_data = none });
}

abbrev coded : RequestErrorLike ℕ
coded = record {
  message = none;
  response =
      some (record { status = none; response_data = some (obj (field "code" (num 401) end)) });
}

handle_errors-redirected_example :
    handle_errors naturals identity (denied ∷ coded ∷ denied ∷ []) app ≡ record app {
      auth = initial;
      location = record {
        pathname = "/login";
        search = "?redirect=" ⧺ ("/admin" ⧺ ("?page=2" ⧺ ""));
        hash = "";
      };
      pushed = ("/login?redirect=" ⧺ ("/admin" ⧺ ("?page=2" ⧺ ""))) ∷ [];
    }
unfolding get
handle_errors-redirected_example =
    handle_errors-redirected naturals identity denied (coded ∷ denied ∷ []) app
      (with_status none none 401 refl)
      (
        with_code none (field "code" (num 401) end) 401 refl refl,
        (with_status none none 401 refl, tt),
      )
      (ground (arith, eq_iff "/admin" "/login")) (ground (arith, eq_iff "/admin" "/register"))

abbrev result : AuthResult
result = record {
  user_id = "u";
  email = "a@b.c";
  role = "admin";
  access_token = "tok";
  token_type = "Bearer";
}

abbrev config : RequestConfig Small
config = record { headers = some (field "Accept" (str "application/json") end); rest = end }

set_session-granted_example :
    (auth_guard identity (set_session result initial) page ≡ outlet)
    × (get "Accept" (headers_of (add_authorization (set_session result initial) config).headers) ≡ (
        if "Authorization" == "Accept"
        then some (str ("Bearer " ⧺ "tok"))
        else get "Accept" (headers_of config.headers)))
set_session-granted_example =
    set_session-granted identity result initial page config "Accept"
      (ground (arith, eq_iff "tok" ""))

auth_guard-eq-outlet_iff_example :
    ((auth_guard identity (set_session result initial) page ≡ outlet) ↔ (
      (token : String) × ((set_session result initial).access_token ≡ some token) × (token ≢ "")))
    × ((auth_guard identity (set_session result initial) page ≡ outlet)
        ⊎ (auth_guard identity (set_session result initial) page
            ≡ navigate (login_path identity ("/admin" ⧺ "?page=2"))))
auth_guard-eq-outlet_iff_example =
    auth_guard-eq-outlet_iff identity (set_session result initial) page

abbrev answer : Outcome String ℕ
answer = responded (record { msg = "ok"; code = 201; response_data = some 7 })

api_request-eq-returned_iff_example : (api_request answer ≡ returned 7) ↔ (
    (r : ApiResponse ℕ) × (answer ≡ responded r)
    × (200 ≤ r.code)
    × (r.code < 300)
    × (r.response_data ≡ some 7))
api_request-eq-returned_iff_example = api_request-eq-returned_iff answer 7
