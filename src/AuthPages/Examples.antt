-- ===== src/AuthPages/Examples.antt =====
-- A way over the pages of web/src/pages/Auth, with addresses that are read as they are written.
use Prim.Native.Char.{code}
use Prim.Native.String.append
use text.Mathlib.TextLemmas.{append_assoc}
use linkflow_v.Prelude.{
  String, false, some, [], ◌∷◌, ◌≡◌, refl, sym, ap, ◌∙◌, Bool-cases, inl, inr, arith, eq_iff,
  Option, none, if◌then◌else◌, eqb,
}
use linkflow_v.Answers.{answered}
use linkflow_v.Services.Call.{◌⧺◌}
use linkflow_v.Services.Auth.{login}
use linkflow_v.Stores.Auth.{AuthResult, initial}
use linkflow_v.App.{PageLocation, outlet, navigate, auth_guard}
use linkflow_v.AuthPages.{
  AuthPage, handle_log_in, log_in_answered, register_answered, register_path,
}
use linkflow_v.AuthPages.Return.{log_in_answered-auth_guard}
use linkflow_v.Js.Text.{trim}

abbrev tenants : PageLocation
tenants = record { pathname = "/admin"; search = "/tenants"; hash = "" }

abbrev result : AuthResult
result = record {
  user_id = "u1";
  email = "a@b";
  role = "admin";
  access_token = "tok";
  token_type = "Bearer";
}

abbrev form : AuthPage
form = record {
  email = " a@b ";
  password = "secret";
  confirm_password = "";
  submitting = false;
  auth = initial;
  sent = [];
  pushed = [];
  notified = [];
}

-- The text after the first `=`.
after_equals : String → Option String
after_equals String.[] = none
after_equals (String.◌∷◌ c s) =
    let rest = after_equals s in if eqb (code c) b'=' then some s else rest

abbrev same_text : String → String
same_text x = x

after_equals-append :
    (p x r : String) → after_equals p ≡ some r → after_equals (p ⧺ x) ≡ some (r ⧺ x)
unfolding after_equals
after_equals-append String.[] x r h = cc
after_equals-append (String.◌∷◌ c s) x r h =
    rw (append.cons c s x) (elim (Bool-cases (eqb (code c) b'=')) [
      | inl here ↦ let h' = (rw here at h) in rw here (let e : s ≡ r = cc in rw e refl)
      | inr later ↦ rw later (after_equals-append s x r (rw later at h))
    ])

reads_login_address : (x : String) → after_equals ("/login?redirect=" ⧺ same_text x) ≡ some x
unfolding after_equals
reads_login_address x = after_equals-append "/login?redirect=" x "" refl ∙ ap some (append.nil x)

reads_register_address :
    (x : String) → after_equals ("/register" ⧺ ("?redirect=" ⧺ same_text x)) ≡ some x
unfolding after_equals
reads_register_address x =
    ap after_equals (sym (append_assoc "/register" "?redirect=" x))
    ∙ after_equals-append "/register?redirect=" x "" refl
    ∙ ap some (append.nil x)

log_in_answered-auth_guard_example :
    (auth_guard same_text form.auth tenants ≡ navigate "/login?redirect=/admin/tenants")
    × ((log_in_answered
          (after_equals ("/login?redirect=" ⧺ same_text "/admin/tenants"))
          (answered result)
          form).pushed
        ≡ "/admin/tenants" ∷ [])
    × ((register_answered
          (after_equals (
            register_path same_text
              (after_equals ("/login?redirect=" ⧺ same_text "/admin/tenants"))))
          (answered result)
          form).pushed
        ≡ "/admin/tenants" ∷ [])
    × (auth_guard same_text
          (log_in_answered
            (after_equals ("/login?redirect=" ⧺ same_text "/admin/tenants"))
            (answered result)
            form).auth
          tenants
        ≡ outlet)
    × (auth_guard same_text
          (register_answered
            (after_equals (
              register_path same_text
                (after_equals ("/login?redirect=" ⧺ same_text "/admin/tenants"))))
            (answered result)
            form).auth
          tenants
        ≡ outlet)
unfolding initial
log_in_answered-auth_guard_example =
    log_in_answered-auth_guard same_text after_equals reads_login_address reads_register_address
      result form tenants tenants refl (ground (arith, eq_iff "tok" ""))
      (ground (arith, eq_iff "/admin/tenants" ""))

log_in-form : (handle_log_in form).sent ≡ login (record { email = "a@b"; password = "secret" }) ∷ []
unfolding handle_log_in trim
log_in-form = refl
