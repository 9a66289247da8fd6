-- ===== src/AuthPages.antt =====
-- The pages that start a session, web/src/pages/Auth/Login.tsx and Register.tsx, and the end of a
-- session, `handleLogout` of web/src/pages/Admin/index.tsx. A handler is cut at its `await`; the parameter
-- `redirect` of the address is an argument.
pub mod Return
mod Examples
use linkflow_v.Prelude.{
  String, Bool, true, false, not, ◌&&◌, Option, none, some, List, [], ◌∷◌, ◌==◌, if◌then◌else◌,
}
use linkflow_v.Js.Text.{trim}
use linkflow_v.Answers.{Answer, answered, failed}
use linkflow_v.Services.Call.{ApiCall, ◌⧺◌}
use linkflow_v.Services.Auth.{AuthCredentials, login, register}
use linkflow_v.Stores.Auth.{AuthState, AuthResult, set_session, clear_session}

pub record AuthPage : Type 0 where
  pub email : String
  pub password : String
  pub confirm_password : String
  pub submitting : Bool
  pub auth : AuthState
  -- The calls, the paths that were pushed and the messages that were shown, latest first.
  pub sent : List (ApiCall AuthCredentials)
  pub pushed : List String
  pub notified : List String

abbrev pub is_filled : String → Bool
is_filled text = not (text == "")

abbrev pub can_log_in : AuthPage → Bool
can_log_in s = is_filled (trim s.email) && is_filled s.password && not s.submitting

abbrev pub can_register : AuthPage → Bool
can_register s =
    is_filled (trim s.email)
    && is_filled s.password
    && is_filled s.confirm_password
    && s.password == s.confirm_password
    && not s.submitting

abbrev pub credentials : AuthPage → AuthCredentials
credentials s = record { email = trim s.email; password = s.password }

unfoldable pub handle_log_in : AuthPage → AuthPage
handle_log_in s =
    if not (can_log_in s)
    then s
    else record s { submitting = true; sent = login (credentials s) ∷ s.sent }

unfoldable pub handle_register : AuthPage → AuthPage
handle_register s =
    if not (can_register s)
    then s
    else record s { submitting = true; sent = register (credentials s) ∷ s.sent }

-- `redirect || '/admin'`.
abbrev pub or_admin : Option String → String
or_admin none = "/admin"
or_admin (some path) = if path == "" then "/admin" else path

-- An error goes on to the handler of the application.
unfoldable pub auth_answered : String → Option String → Answer AuthResult → AuthPage → AuthPage
auth_answered message redirect (answered result) s = record s {
  auth = set_session result s.auth;
  notified = message ∷ s.notified;
  pushed = or_admin redirect ∷ s.pushed;
  submitting = false;
}
auth_answered message redirect (failed e) s = record s { submitting = false }

unfoldable pub log_in_answered : Option String → Answer AuthResult → AuthPage → AuthPage
unfolding auth_answered
log_in_answered redirect answer s = auth_answered "loginSuccess" redirect answer s

unfoldable pub register_answered : Option String → Answer AuthResult → AuthPage → AuthPage
unfolding auth_answered
register_answered redirect answer s = auth_answered "registerSuccess" redirect answer s

-- The links between the two pages, with `encodeURIComponent`.
abbrev pub with_redirect : (String → String) → String → Option String → String
with_redirect encode path none = path
with_redirect encode path (some redirect) =
    if redirect == "" then path else path ⧺ ("?redirect=" ⧺ encode redirect)

abbrev pub register_path : (String → String) → Option String → String
register_path encode redirect = with_redirect encode "/register" redirect

abbrev pub login_path : (String → String) → Option String → String
login_path encode redirect = with_redirect encode "/login" redirect

unfoldable pub handle_logout : AuthPage → AuthPage
handle_logout s = record s { auth = clear_session s.auth; pushed = "/login" ∷ s.pushed }
