-- ===== src/Http.antt =====
-- Requests to the backend: web/src/services/http/client.ts, error.ts and types.ts. The third-party
-- `request` either rejects with an error of type `E` or gives a response.
use linkflow_v.Prelude.{
  ℕ, String, Bool, ◌&&◌, Option, none, some, leb, ltb, if◌then◌else◌, ◌≡◌, ◌↔◌, ◌≤◌, ◌<◌, refl,
  arith,
}

pub record ApiResponse (T : Type 0) : Type 0 where
  pub msg : String
  pub code : ℕ
  pub response_data : Option T

pub record ApiError : Type 0 where
  pub message : String
  pub code : ℕ

pub data Outcome (E T : Type 0) : Type 0 where
  rejected : E → Outcome E T
  responded : ApiResponse T → Outcome E T

pub data ApiResult (E T : Type 0) : Type 0 where
  returned : T → ApiResult E T
  api_error : ApiError → ApiResult E T
  request_error : E → ApiResult E T

unfoldable pub is_success_code : ℕ → Bool
is_success_code code = leb 200 code && ltb code 300

abbrev pub of_data : {E T : Type 0} → Option T → ℕ → ApiResult E T
of_data none code = api_error (record { message = "Empty response data"; code = code })
of_data (some v) code = returned v

-- What `apiRequest` does with the outcome of `request`.
unfoldable pub api_request : {E T : Type 0} → Outcome E T → ApiResult E T
unfolding is_success_code
api_request (rejected e) = request_error e
api_request (responded r) =
    if is_success_code r.code
    then of_data r.response_data r.code
    else api_error (record { message = r.msg; code = r.code })

-- A value is returned exactly if the response has a code from 200 to 299 and this value as its
-- data.
pub api_request-eq-returned_iff :
    {E T : Type 0} (o : Outcome E T) (v : T)
    → (api_request o ≡ returned v) ↔ (
        (r : ApiResponse T) × (o ≡ responded r)
        × (200 ≤ r.code)
        × (r.code < 300)
        × (r.response_data ≡ some v))
unfolding api_request
api_request-eq-returned_iff (rejected e) v = (λ h. cc, λ h. cc)
api_request-eq-returned_iff (responded r) v =
    (λ h. (r, refl, ground arith, ground arith, ground arith), λ h. ground arith)
