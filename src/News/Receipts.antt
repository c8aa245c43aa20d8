-- ===== src/News/Receipts.antt =====
-- What the news sender makes of a response of Telegram (apps/news/receipts.py).
use quota_radar.Prelude.{
  ℕ, min, max, String, Bool, true, false, ◌&&◌, ◌||◌, not, Option, none, some, List, [], ◌∷◌, leb,
  ◌==◌, if◌then◌else◌, length, str_eq,
}
use quota_radar.Json.{Json, Fields, get, is_dict, items, or_default, empty_dict}
use quota_radar.Text.{int}
use quota_radar.Text.Integer.{ℤ}
use quota_radar.Telegram.Client.{Code, is_code, at_least, show_code, is_success, is_true_json}

-- Python's reading of a description, `str(value).lower()` with the test for one of these parts, and
-- of the numeral of a `float`, `int(value)`.
pub record ReceiptReading : Type 0 where
  pub lower_text : Json → String
  pub includes : String → String → Bool
  pub truncated : String → Option ℤ

-- The identifiers of the messages, or the exception: `error` is any other one.
pub data Receipt : Type 0 where
  message_ids : List String → Receipt
  uncertain rejected remote_media_rejected : String → Receipt
  rate_limited : ℕ → Receipt
  error : Receipt

-- `value.get(key, default)` of a dict
unfoldable pub get_or : String → Json → Fields → Json
get_or k default Fields.end = default
get_or k default (Fields.field j v fs) =
    let rest = get_or k default fs in if str_eq j k then v else rest

abbrev pub url_errors : List String
url_errors =
    "failed to get http url content" ∷ "wrong type of the web page content" ∷ "webpage_curl_failed"
    ∷ "webpage_media_empty" ∷ "file is too big" ∷ "wrong file identifier/http url specified" ∷ []

-- `any(part in text for part in parts)`
unfoldable pub any_part : (String → String → Bool) → List String → String → Bool
any_part includes [] text = false
any_part includes (part ∷ parts) text = includes part text || any_part includes parts text

-- `int(value)`; a failing one is `none`.
abbrev pub seconds_of : ReceiptReading → Json → Option ℤ
seconds_of reading (Json.num n) = some (ℤ.pos n)
seconds_of reading (Json.neg n) = some (ℤ.negsuc n)
seconds_of reading (Json.bool true) = some (ℤ.pos 1)
seconds_of reading (Json.bool false) = some (ℤ.pos 0)
seconds_of reading (Json.real s) = reading.truncated s
seconds_of reading (Json.str s) = int s
seconds_of reading _ = none

-- `DeliveryRateLimited`: between a second and a day
abbrev pub delivery_rate_limited : Option ℤ → Receipt
delivery_rate_limited none = Receipt.error
delivery_rate_limited (some (ℤ.pos n)) = Receipt.rate_limited (max 1 (min n 86400))
delivery_rate_limited (some (ℤ.negsuc n)) = Receipt.rate_limited 1

-- `(body.get("parameters") or {}).get("retry_after", 60)`; only a dict has `get`.
unfoldable pub limited : ReceiptReading → Json → Receipt
limited reading (Json.obj fs) =
    delivery_rate_limited (seconds_of reading (get_or "retry_after" (Json.num 60) fs))
limited reading _ = Receipt.error

-- `type(value) is int`
abbrev pub exact_int : Json → Option Code
exact_int (Json.num n) = some (Code.plain n)
exact_int (Json.neg n) = some (Code.minus n)
exact_int _ = none

-- Telegram said no, with this code.
unfoldable pub refused_publication : ReceiptReading → ℕ → Json → Bool → Option Code → Receipt
refused_publication reading status body remote_media none =
    Receipt.uncertain "Некорректный код ответа Telegram."
refused_publication reading status body remote_media (some code) =
    if at_least 500 code
    then Receipt.uncertain "Telegram сообщил ошибку сервера."
    else if is_code 429 code
    then limited reading (or_default (get "parameters" body) empty_dict)
    else if remote_media
        && ((status == 400)
            && (is_code 400 code
                && any_part reading.includes url_errors (reading.lower_text (description body))))
    then Receipt.remote_media_rejected "Telegram не смог скачать оригинал по URL."
    else Receipt.rejected "Telegram отклонил публикацию."
  where
    description : Json → Json
    description (Json.obj fs) = get_or "description" (Json.str "") fs
    description _ = Json.str ""

-- `result if isinstance(result, list) else [result]`
abbrev pub messages_of : Json → List Json
messages_of (Json.arr js) = items js
messages_of result = result ∷ []

-- An identifier before the others, if there are all of them.
abbrev pub with_id : Option Code → Option (List String) → Option (List String)
with_id (some code) (some ids) = some (show_code code ∷ ids)
with_id _ _ = none

-- The identifiers, if every message has one.
unfoldable pub ids_of : List Json → Option (List String)
ids_of [] = some []
ids_of (m ∷ ms) = with_id (exact_int (get "message_id" m)) (ids_of ms)

abbrev pub confirmed : ℕ → List Json → Option (List String) → Receipt
confirmed expected_count messages none =
    Receipt.uncertain "Telegram не подтвердил все сообщения публикации."
confirmed expected_count messages (some ids) =
    if length messages == expected_count
    then Receipt.message_ids ids
    else Receipt.uncertain "Telegram не подтвердил все сообщения публикации."

abbrev pub says_no : Json → Bool
says_no (Json.bool b) = not b
says_no _ = false

-- `body.get("error_code", status)`
abbrev pub error_code : ℕ → Json → Json
error_code status (Json.obj fs) = get_or "error_code" (Json.num status) fs
error_code status _ = Json.null

unfoldable pub parse_receipt : ReceiptReading → ℕ → Json → ℕ → Bool → Receipt
parse_receipt reading status body expected_count remote_media =
    if leb 500 status
    then Receipt.uncertain "Telegram 5xx: результат не подтверждён."
    else if is_dict body && says_no (get "ok" body)
    then refused_publication reading status body remote_media (exact_int (error_code status body))
    else if not (is_dict body) || (not (is_true_json (get "ok" body)) || not (is_success status))
    then Receipt.uncertain "Некорректная квитанция Telegram."
    else let messages = messages_of (get "result" body) in
      confirmed expected_count messages (ids_of messages)
