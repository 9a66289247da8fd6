-- ===== src/Stores/Auth.antt =====
-- The session: web/src/stores/authStore.ts and the types of web/src/services/auth.ts.
use linkflow_v.Prelude.{String, Bool, true, false, Option, none, some}

pub record AuthUser : Type 0 where
  pub user_id : String
  pub email : String
  pub role : String

pub record AuthState : Type 0 where
  pub access_token : Option String
  pub is_authenticated : Bool
  pub user : Option AuthUser

pub record AuthResult : Type 0 where
  pub user_id : String
  pub email : String
  pub role : String
  pub access_token : String
  pub token_type : String

unfoldable pub to_auth_user : AuthResult → AuthUser
to_auth_user result = record { user_id = result.user_id; email = result.email; role = result.role }

unfoldable pub initial : AuthState
initial = record { access_token = none; is_authenticated = false; user = none }

unfoldable pub clear_session : AuthState → AuthState
clear_session s = record { access_token = none; is_authenticated = false; user = none }

unfoldable pub set_session : AuthResult → AuthState → AuthState
unfolding to_auth_user
set_session result s = record {
  access_token = some result.access_token;
  is_authenticated = true;
  user = some (to_auth_user result);
}
