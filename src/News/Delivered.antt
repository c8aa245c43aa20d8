-- ===== src/News/Delivered.antt =====
-- Receipts that count as a publication that was sent (apps/news/receipts.py).
use mathlib.Core.Option.{some-injective}
use quota_radar.Prelude.{
  ℕ, String, ◌≡◌, ◌≢◌, refl, sym, inl, inr, Bool, true, false, ◌&&◌, ◌||◌, not, Option, none, some,
  List, [], ◌∷◌, arith, leb, ◌==◌, length, Bool-cases,
}
use quota_radar.Json.{Json, get, is_dict, or_default, empty_dict}
use quota_radar.Text.Integer.{ℤ}
use quota_radar.Telegram.Client.{Code, show_code, is_success, is_true_json}
use quota_radar.Telegram.Answers.{true_json}
use quota_radar.News.Receipts.{
  ReceiptReading, Receipt, delivery_rate_limited, limited, exact_int, refused_publication,
  messages_of, with_id, ids_of, confirmed, says_no, error_code, parse_receipt,
}

-- These are the messages' identifiers, in order.
pub Identifies : List Json → List String → Type 0
Identifies [] [] = Unit
Identifies (m ∷ ms) (id ∷ ids) =
    (code : Code) × (exact_int (get "message_id" m) ≡ some code)
    × (id ≡ show_code code)
    × Identifies ms ids
Identifies _ _ = ⊥

-- What a publication that counts as sent rests on.
pub record Delivered (status : ℕ) (body : Json) (expected_count : ℕ) (ids : List String)
    : Type 0 where
  pub success : is_success status ≡ true
  pub acknowledged : get "ok" body ≡ Json.bool true
  pub complete : length (messages_of (get "result" body)) ≡ expected_count
  pub identified : Identifies (messages_of (get "result" body)) ids

with_id-parts :
    (o : Option Code) (p : Option (List String)) (ids : List String)
    → with_id o p ≡ some ids
    → (code : Code) × (rest : List String) × (o ≡ some code)
      × (p ≡ some rest)
      × (ids ≡ show_code code ∷ rest)
with_id-parts (some code) (some rest) ids e = (code, rest, refl, refl, sym (some-injective _ _ e))
with_id-parts (some code) none ids e = cc
with_id-parts none _ ids e = cc

ids_of-Identifies : (ms : List Json) (ids : List String) → ids_of ms ≡ some ids → Identifies ms ids
unfolding ids_of Identifies
ids_of-Identifies [] [] e = tt
ids_of-Identifies [] (id ∷ ids) e = cc
ids_of-Identifies (m ∷ ms) ids e =
    let (code, rest, at, others, same) = with_id-parts _ (ids_of ms) ids e in
    rw same (code, at, refl, ids_of-Identifies ms rest others)

limited-undelivered :
    (o : Option ℤ) (ids : List String) → delivery_rate_limited o ≢ Receipt.message_ids ids
limited-undelivered none ids e = cc
limited-undelivered (some (ℤ.pos n)) ids e = cc
limited-undelivered (some (ℤ.negsuc n)) ids e = cc

retried-undelivered :
    (reading : ReceiptReading) (parameters : Json) (ids : List String)
    → limited reading parameters ≢ Receipt.message_ids ids
unfolding limited
retried-undelivered reading (Json.obj fs) ids e = limited-undelivered _ ids e
retried-undelivered reading _ ids e = cc

refused_publication-undelivered :
    (reading : ReceiptReading) (status : ℕ) (body : Json) (remote_media : Bool) (code : Option Code)
    (ids : List String)
    → refused_publication reading status body remote_media code ≢ Receipt.message_ids ids
unfolding refused_publication
refused_publication-undelivered reading status body remote_media none ids e = cc
refused_publication-undelivered reading status body remote_media (some code) ids e =
    ground (arith, retried-undelivered reading (or_default (get "parameters" body) empty_dict) ids)

confirmed_complete :
    (expected_count : ℕ) (messages : List Json) (o : Option (List String)) (ids : List String)
    → confirmed expected_count messages o ≡ Receipt.message_ids ids
    → (o ≡ some ids) × (length messages ≡ expected_count)
confirmed_complete expected_count messages none ids e = cc
confirmed_complete expected_count messages (some found) ids e =
    elim (Bool-cases (length messages == expected_count)) [
      | inl all ↦
          let same : Receipt.message_ids found ≡ Receipt.message_ids ids = simp all at e in
          (cc, ground (arith, all))
      | inr some_missing ↦
          let bad : Receipt.uncertain "Telegram не подтвердил все сообщения публикации."
              ≡ Receipt.message_ids ids =
            simp some_missing at e in
          cc
    ]

-- The last of the tests passed.
accepted :
    (status : ℕ) (body : Json)
    → not (is_dict body) || (not (is_true_json (get "ok" body)) || not (is_success status)) ≡ false
    → (is_success status ≡ true) × (is_true_json (get "ok" body) ≡ true)
accepted status body e = (ground arith, ground arith)

abbrev unconfirmed : ℕ → Json → Bool
unconfirmed status body =
    not (is_dict body) || (not (is_true_json (get "ok" body)) || not (is_success status))

-- A publication counts as sent only on a successful status, an acknowledging body, and as many
-- messages as expected, each with an integer identifier; these are what is stored, in order.
pub parse_receipt-Delivered :
    (reading : ReceiptReading) (status : ℕ) (body : Json) (expected_count : ℕ) (remote_media : Bool)
    (ids : List String)
    → parse_receipt reading status body expected_count remote_media ≡ Receipt.message_ids ids
    → Delivered status body expected_count ids
unfolding parse_receipt
parse_receipt-Delivered reading status body expected_count remote_media ids e =
    elim (Bool-cases (leb 500 status)) [
      | inl down ↦
          let bad : Receipt.uncertain "Telegram 5xx: результат не подтверждён."
              ≡ Receipt.message_ids ids =
            simp down at e in
          cc
      | inr up ↦ elim (Bool-cases (is_dict body && says_no (get "ok" body))) [
        | inl denied ↦ absurd (
            refused_publication-undelivered reading status body remote_media
              (exact_int (error_code status body)) ids (simp (up, denied) at e))
        | inr taken ↦ elim (Bool-cases (unconfirmed status body)) [
          | inl bad_receipt ↦
              let bad : Receipt.uncertain "Некорректная квитанция Telegram."
                  ≡ Receipt.message_ids ids =
                simp (up, taken, bad_receipt) at e in
              cc
          | inr good ↦
              let (listed, all) =
                confirmed_complete expected_count (messages_of (get "result" body))
                  (ids_of (messages_of (get "result" body))) ids (simp (up, taken, good) at e) in
              let (success, acknowledged) = accepted status body good in
              record {
                success = success;
                acknowledged = true_json (get "ok" body) acknowledged;
                complete = all;
                identified = ids_of-Identifies _ ids listed;
              }
        ]
      ]
    ]
