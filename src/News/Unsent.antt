-- ===== src/News/Unsent.antt =====
-- Receipts that count as a publication that was not sent (apps/news/receipts.py).
use quota_radar.Prelude.{
  ℕ, String, ◌≡◌, refl, ap, inl, inr, Bool, true, false, ◌&&◌, Option, none, some, List, arith, leb,
  Bool-cases,
}
use quota_radar.Json.{Json, get, is_dict}
use quota_radar.Telegram.Client.{Code, at_least}
use quota_radar.News.Receipts.{
  ReceiptReading, Receipt, exact_int, refused_publication, messages_of, ids_of, confirmed, says_no,
  error_code, parse_receipt,
}

-- The sender may try again, or give up: nothing was published.
abbrev pub is_unsent : Receipt → Bool
is_unsent (Receipt.rejected m) = true
is_unsent (Receipt.remote_media_rejected m) = true
is_unsent (Receipt.rate_limited n) = true
is_unsent _ = false

-- Telegram answered, and said that it did nothing.
pub record Denied (status : ℕ) (body : Json) : Type 0 where
  pub answered : leb 500 status ≡ false
  pub denied : get "ok" body ≡ Json.bool false
  pub code : Code
  pub integer : exact_int (error_code status body) ≡ some code
  pub definite : at_least 500 code ≡ false

says_no-false : (j : Json) → says_no j ≡ true → j ≡ Json.bool false
says_no-false (Json.bool b) e = ap Json.bool (ground arith)
says_no-false _ e = cc

refused_publication-definite :
    (reading : ReceiptReading) (status : ℕ) (body : Json) (remote_media : Bool) (o : Option Code)
    → is_unsent (refused_publication reading status body remote_media o) ≡ true
    → (code : Code) × (o ≡ some code) × (at_least 500 code ≡ false)
unfolding refused_publication
refused_publication-definite reading status body remote_media none e = cc
refused_publication-definite reading status body remote_media (some code) e =
    (code, refl, ground arith)

confirmed_unsent :
    (expected_count : ℕ) (messages : List Json) (o : Option (List String))
    → is_unsent (confirmed expected_count messages o) ≡ false
confirmed_unsent expected_count messages none = refl
confirmed_unsent expected_count messages (some ids) = ground arith

-- A publication counts as not sent, to be given up or tried again, only where the status is below
-- 500 and Telegram denied the request with an integer code below 500.
pub parse_receipt-Denied :
    (reading : ReceiptReading) (status : ℕ) (body : Json) (expected_count : ℕ) (remote_media : Bool)
    → is_unsent (parse_receipt reading status body expected_count remote_media) ≡ true
    → Denied status body
unfolding parse_receipt
parse_receipt-Denied reading status body expected_count remote_media e =
    elim (Bool-cases (leb 500 status)) [
      | inl down ↦ let bad : false ≡ true = simp down at e in cc
      | inr up ↦ elim (Bool-cases (is_dict body && says_no (get "ok" body))) [
        | inl denied ↦
            let (code, integer, definite) =
              refused_publication-definite reading status body remote_media
                (exact_int (error_code status body)) (simp (up, denied) at e) in
            record {
              answered = up;
              denied = says_no-false (get "ok" body) (ground arith);
              code = code;
              integer = integer;
              definite = definite;
            }
        | inr taken ↦
            let sure =
              confirmed_unsent expected_count (messages_of (get "result" body))
                (ids_of (messages_of (get "result" body))) in
            ground (arith, sure)
      ]
    ]
