-- ===== src/Services/Auth.antt =====
-- Requests about authentication: web/src/services/auth.ts.
use linkflow_v.Prelude.{Bool, String}
use linkflow_v.Services.Call.{ApiCall, post, nothing, as_data}

pub record AuthCredentials : Type 0 where
  pub email : String
  pub password : String

pub record LogoutResult : Type 0 where
  pub revoked : Bool

unfoldable pub login : AuthCredentials → ApiCall AuthCredentials
login body = record { method = post; url = "/api/v1/auth/login"; payload = as_data body }

unfoldable pub register : AuthCredentials → ApiCall AuthCredentials
register body = record { method = post; url = "/api/v1/auth/register"; payload = as_data body }

unfoldable pub logout : ApiCall (Unit {0})
logout = record { method = post; url = "/api/v1/auth/logout"; payload = nothing }
