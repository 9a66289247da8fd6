-- ===== src/AuthPages/Return.antt =====
-- The way from a guarded page over the pages of web/src/pages/Auth back to it.
use linkflow_v.Prelude.{
  String, false, none, some, ◌∷◌, ◌==◌, ◌≡◌, ◌≢◌, refl, ap, ◌∙◌, arith, eq_iff, Option,
}
use linkflow_v.Answers.{answered}
use linkflow_v.Services.Call.{◌⧺◌}
use linkflow_v.Stores.Auth.{AuthState, AuthResult, set_session}
use linkflow_v.App.{PageLocation, outlet, navigate, usable_token, auth_guard}
use linkflow_v.AuthPages.{
  AuthPage, or_admin, auth_answered, log_in_answered, register_answered, register_path,
}

module _ (encode : String → String) (redirect_of : String → Option String)
    (reads_login : (x : String) → redirect_of ("/login?redirect=" ⧺ encode x) ≡ some x)
    (reads_register : (x : String)
      → redirect_of ("/register" ⧺ ("?redirect=" ⧺ encode x)) ≡ some x) where
  auth_guard-set_session :
      (result : AuthResult) (s : AuthState) (l : PageLocation)
      → result.access_token ≢ ""
      → auth_guard encode (set_session result s) l ≡ outlet
  unfolding auth_guard set_session
  auth_guard-set_session result s l h =
      let n : (result.access_token == "") ≡ false = ground (arith, eq_iff result.access_token "") in
      rw (n, auth_guard) refl

  auth_guard-none :
      (auth : AuthState) (l : PageLocation)
      → usable_token auth.access_token ≡ none
      → auth_guard encode auth l ≡ navigate ("/login?redirect=" ⧺ encode (l.pathname ⧺ l.search))
  unfolding auth_guard
  auth_guard-none auth l h = rw (h, auth_guard) refl

  or_admin-some : (x : String) → x ≢ "" → or_admin (some x) ≡ x
  or_admin-some x h = let n : (x == "") ≡ false = ground (arith, eq_iff x "") in rw n refl

  reads_register_path : (x : String) → x ≢ "" → redirect_of (register_path encode (some x)) ≡ some x
  reads_register_path x h =
      let n : (x == "") ≡ false = ground (arith, eq_iff x "") in rw n (reads_register x)

  -- Without a usable token the guard leads from a page to the login page; a login there comes back to
  -- the path and the search of that page, and so does a registration on the page that the login
  -- page links to; after either answer with a token that is not empty the guard shows every page. It is
  -- assumed that the path and the search are not both empty, and that the search parameter
  -- `redirect` of an address reads what `encodeURIComponent` wrote there.
  pub log_in_answered-auth_guard :
      (result : AuthResult) (s : AuthPage) (l next : PageLocation)
      → usable_token s.auth.access_token ≡ none
      → result.access_token ≢ ""
      → l.pathname ⧺ l.search ≢ ""
      → (auth_guard encode s.auth l
          ≡ navigate ("/login?redirect=" ⧺ encode (l.pathname ⧺ l.search)))
        × ((log_in_answered
              (redirect_of ("/login?redirect=" ⧺ encode (l.pathname ⧺ l.search)))
              (answered result)
              s).pushed
            ≡ (l.pathname ⧺ l.search) ∷ s.pushed)
        × ((register_answered
              (redirect_of (
                register_path encode
                  (redirect_of ("/login?redirect=" ⧺ encode (l.pathname ⧺ l.search)))))
              (answered result)
              s).pushed
            ≡ (l.pathname ⧺ l.search) ∷ s.pushed)
        × (auth_guard encode
              (log_in_answered
                (redirect_of ("/login?redirect=" ⧺ encode (l.pathname ⧺ l.search)))
                (answered result)
                s).auth
              next
            ≡ outlet)
        × (auth_guard encode
              (register_answered
                (redirect_of (
                  register_path encode
                    (redirect_of ("/login?redirect=" ⧺ encode (l.pathname ⧺ l.search)))))
                (answered result)
                s).auth
              next
            ≡ outlet)
  unfolding log_in_answered register_answered auth_answered
  log_in_answered-auth_guard result s l next denied token there =
      let path = l.pathname ⧺ l.search in
      (
        auth_guard-none s.auth l denied,
        ap (λ r. or_admin r ∷ s.pushed) (reads_login path)
            ∙ ap (λ x. x ∷ s.pushed) (or_admin-some path there),
        ap (λ r. or_admin (redirect_of (register_path encode r)) ∷ s.pushed) (reads_login path)
            ∙ ap (λ r. or_admin r ∷ s.pushed) (reads_register_path path there)
            ∙ ap (λ x. x ∷ s.pushed) (or_admin-some path there),
        auth_guard-set_session result s.auth next token,
        auth_guard-set_session result s.auth next token,
      )
