-- ===== src/Monitoring/XApi.antt =====
-- What `XApiClient` makes of the answers of the X API (apps/monitoring/x_api.py). The HTTP client
-- is not modelled: the server is a function from requests to answers, and the requests of one run
-- differ from each other.
use quota_radar.Text.{int}
use quota_radar.Text.Integer.{ℤ}
use quota_radar.Text.Decimal.{show}
use Prim.Native.String.{◌++◌ as ◌<>◌}
use quota_radar.Prelude.{ℕ, String, ◌&&◌, Option, none, some, ltb, leb, ◌==◌, if◌then◌else◌}
use quota_radar.Json.{Json, is_dict}
use quota_radar.Action.{Result, ok, raised, Exn, XApiError, and_then}

-- The parameters of a timeline request; the constant fields and expansions are left out.
pub record TimelineQuery : Type 0 where
  pub user_id : String
  pub max_results : ℕ
  pub since_id : Option String
  pub until_id : Option String
  pub pagination_token : Option String

pub data XRequest : Type 0 where
  users_by : String → XRequest
  user_posts : TimelineQuery → XRequest

-- No response at all, or a status, the `x-rate-limit-reset` header and the body if it is JSON.
pub data XAnswer : Type 0 where
  request_failed : XAnswer
  responded : ℕ → Option String → Option Json → XAnswer

abbrev x_error : {A : Type 0} → XApiError → String → Result A
x_error kind message = raised (Exn.x_api_error kind message)

abbrev pub response_error : {A : Type 0} → String → Result A
response_error = x_error XApiError.response

abbrev reset_at : Option String → Option ℤ
reset_at none = none
reset_at (some raw_reset) = int raw_reset

-- `_raise_for_status`
unfoldable pub raise_for_status : ℕ → Option String → Result (Unit {0})
unfolding int
raise_for_status status_code raw_reset =
    if leb 200 status_code && ltb status_code 300
    then ok tt
    else if status_code == 401
    then x_error XApiError.authentication "X API rejected the configured bearer token."
    else if status_code == 403
    then x_error XApiError.forbidden "X API access is forbidden for the configured app."
    else if status_code == 404
    then x_error XApiError.not_found "X API resource was not found."
    else if status_code == 429
    then x_error (XApiError.rate_limit (reset_at raw_reset)) "X API rate limit exceeded."
    else if leb 500 status_code && ltb status_code 600
    then x_error XApiError.temporary "X API is temporarily unavailable."
    else response_error ("X API request failed with HTTP " <> (show status_code <> "."))

abbrev payload_of : Option Json → Result Json
payload_of none = response_error "X API returned invalid JSON."
payload_of (some payload) =
    if is_dict payload then ok payload else response_error "X API returned malformed JSON."

-- `_get_json`
unfoldable pub get_json : XAnswer → Result Json
unfolding raise_for_status
get_json XAnswer.request_failed = x_error XApiError.temporary "X API request failed."
get_json (XAnswer.responded status_code raw_reset body) =
    and_then (raise_for_status status_code raw_reset) (λ done. payload_of body)
