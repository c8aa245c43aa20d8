-- ===== src/Telegram/Client.antt =====
-- What `TelegramBotApiClient` makes of an HTTP response (apps/telegram/client.py). The HTTP client is
-- not modelled: a response is its status and its JSON body, and `none` stands for a failed request.
use Prim.Native.String.{◌++◌ as ◌<>◌}
use quota_radar.Prelude.{
  ℕ, suc, String, Bool, true, false, ◌&&◌, ◌||◌, not, Option, none, some, ltb, leb, ◌==◌, max,
  if◌then◌else◌,
}
use quota_radar.Json.{Json, get, is_dict}
use quota_radar.Text.Decimal.{show}
use quota_radar.Telegram.Loading.{Answer}

pub record Response : Type 0 where
  pub status_code : ℕ
  pub body : Option Json

-- A Python `int`; `minus n` is -(n + 1).
pub data Code : Type 0 where
  plain minus : ℕ → Code

-- `value if isinstance(value, int)`; a `bool` is an `int`.
abbrev pub as_int : Json → Option Code
as_int (Json.num n) = some (Code.plain n)
as_int (Json.neg n) = some (Code.minus n)
as_int (Json.bool true) = some (Code.plain 1)
as_int (Json.bool false) = some (Code.plain 0)
as_int _ = none

abbrev pub is_code : ℕ → Code → Bool
is_code n (Code.plain m) = m == n
is_code n (Code.minus m) = false

abbrev pub at_least : ℕ → Code → Bool
at_least n (Code.plain m) = leb n m
at_least n (Code.minus m) = false

abbrev pub show_code : Code → String
show_code (Code.plain n) = show n
show_code (Code.minus n) = "-" <> show (suc n)

abbrev pub code_or : ℕ → Option Code → Code
code_or status none = Code.plain status
code_or status (some c) = c

-- `max(parameters["retry_after"], 1)`
abbrev pub delay_of : Option Code → Option ℕ
delay_of none = none
delay_of (some (Code.plain n)) = some (max n 1)
delay_of (some (Code.minus n)) = some 1

abbrev pub unavailable : Option ℕ → Bool → Answer
unavailable = Answer.temporary "Telegram API is temporarily unavailable."

-- `_raise_api_error`
unfoldable pub api_error : ℕ → Json → Answer
api_error status_code body =
    let error_code = code_or status_code (as_int (get "error_code" body)) in
    let retry_after = delay_of (as_int (get "retry_after" (get "parameters" body))) in
    if is_code 401 error_code
    then Answer.authentication "Telegram rejected the configured bot token."
    else if is_code 429 error_code || at_least 500 error_code
    then unavailable retry_after (not (is_code 429 error_code))
    else if is_code 400 error_code || (is_code 403 error_code || is_code 404 error_code)
    then Answer.permanent_chat "Telegram chat is unavailable or rejected the bot."
    else Answer.response ("Telegram API request failed with HTTP " <> (show_code error_code <> "."))

-- What a call gives: the result, or the exception as an answer.
pub data Call : Type 0 where
  result : Json → Call
  failure : Answer → Call

abbrev pub is_success : ℕ → Bool
is_success status = leb 200 status && ltb status 300

abbrev pub is_true_json : Json → Bool
is_true_json (Json.bool b) = b
is_true_json _ = false

-- A body that is no JSON object.
unfoldable pub malformed : ℕ → Answer
malformed status =
    if status == 401
    then Answer.authentication "Telegram rejected the configured bot token."
    else if status == 429 || (leb 500 status && ltb status 600)
    then unavailable none (not (status == 429))
    else Answer.response "Telegram API returned invalid JSON."

unfoldable pub read_body : ℕ → Option Json → Call
read_body status none = Call.failure (malformed status)
read_body status (some body) =
    if not (is_dict body)
    then Call.failure (malformed status)
    else if is_success status && is_true_json (get "ok" body)
    then Call.result (get "result" body)
    else Call.failure (api_error status body)

-- `_call`
unfoldable pub call : Option Response → Call
call none = Call.failure (Answer.temporary "Telegram API request failed." none true)
call (some r) = read_body r.status_code r.body

-- `type(message_id) is not int or message_id < 1`
abbrev pub read_message_id : Json → Answer
read_message_id (Json.num (suc n)) = Answer.message_id (show (suc n))
read_message_id _ = Answer.response "Telegram sendMessage omitted message_id."

unfoldable pub read_message : Call → Answer
read_message (Call.failure answer) = answer
read_message (Call.result message) =
    if is_dict message
    then read_message_id (get "message_id" message)
    else Answer.response "Telegram sendMessage returned malformed data."

-- `send_message`
unfoldable pub send_message : Option Response → Answer
send_message response = read_message (call response)
