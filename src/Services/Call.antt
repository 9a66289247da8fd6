-- ===== src/Services/Call.antt =====
-- What a service hands to `apiRequest` of web/src/services/http/client.ts, with the options of
-- web/src/services/http/types.ts: no service gives both parameters and a body.
use linkflow_v.Prelude.{ℕ, String, List}
use Prim.Native.String

pub data Method : Type 0 where
  get post put patch delete : Method

pub data Payload (A : Type 0) : Type 0 where
  nothing : Payload A
  as_params as_data : A → Payload A

pub record ApiCall (A : Type 0) : Type 0 where
  pub method : Method
  pub url : String
  pub payload : Payload A

pub record PageResult (T : Type 0) : Type 0 where
  pub items : List T
  pub total : ℕ
  pub page : ℕ
  pub page_size : ℕ

infixr 65 ◌⧺◌
abbrev pub ◌⧺◌ : String → String → String
a ⧺ b = String.◌++◌ a b
