-- ===== src/Tests/News.antt =====
-- A response of Telegram to an album.

use quota_radar.Prelude.{ℕ, ◌≡◌, refl, ap, true, false, none, [], ◌∷◌}
use quota_radar.Json.{Json, get, dict, fields, items, to_items}
use quota_radar.Text.Decimal.{show}
use quota_radar.News.Receipts.{
  ReceiptReading, Receipt, get_or, ids_of, refused_publication, limited, parse_receipt,
}
use quota_radar.News.Unsent.{is_unsent, Denied, parse_receipt-Denied}
use quota_radar.News.Delivered.{Delivered, parse_receipt-Delivered}

abbrev reading : ReceiptReading
reading = record {
  lower_text = λ value. "";
  includes = λ part text. false;
  truncated = λ text. none;
}

abbrev message : ℕ → Json
message id = dict (("message_id", Json.num id) ∷ [])

abbrev album : Json
album =
    dict
      (("ok", Json.bool true) ∷ ("result", Json.arr (to_items (message 7 ∷ message 8 ∷ []))) ∷ [])

album_ids : parse_receipt reading 200 album 2 false ≡ Receipt.message_ids ("7" ∷ "8" ∷ [])
unfolding parse_receipt get fields to_items items ids_of show
album_ids = refl

parse_receipt-Delivered_example : Delivered 200 album 2 ("7" ∷ "8" ∷ [])
parse_receipt-Delivered_example =
    parse_receipt-Delivered reading 200 album 2 false ("7" ∷ "8" ∷ []) album_ids

-- Too many requests.
abbrev too_many : Json
too_many = dict (
    ("ok", Json.bool false)
    ∷ ("error_code", Json.num 429)
    ∷ ("parameters", dict (("retry_after", Json.num 30) ∷ []))
    ∷ [])

too_many_limited : parse_receipt reading 429 too_many 2 false ≡ Receipt.rate_limited 30
unfolding parse_receipt get get_or fields refused_publication limited
too_many_limited = refl

parse_receipt-Denied_example : Denied 429 too_many
parse_receipt-Denied_example =
    parse_receipt-Denied reading 429 too_many 2 false (ap is_unsent too_many_limited)
