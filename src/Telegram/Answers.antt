-- ===== src/Telegram/Answers.antt =====
-- When the client reports a message as sent, and when as surely not sent.
use quota_radar.Prelude.{
  ℕ, suc, String, ◌≡◌, ◌≢◌, refl, ap, inl, inr, true, ◌&&◌, Option, none, some, arith, Bool-cases,
}
use quota_radar.Json.{Json, get, is_dict}
use quota_radar.Text.Decimal.{show}
use quota_radar.Telegram.Loading.{Answer}
use quota_radar.Telegram.Client.{
  Response, Call, is_success, is_true_json, api_error, malformed, read_body, call, read_message_id,
  read_message, send_message,
}

malformed-unsent : (s : ℕ) (m : String) → malformed s ≢ Answer.message_id m
unfolding malformed
malformed-unsent s m e = ground arith

api_error-unsent : (s : ℕ) (body : Json) (m : String) → api_error s body ≢ Answer.message_id m
unfolding api_error
api_error-unsent s body m e = ground arith

-- The response that a success rests on.
pub record Confirmed (r : Option Response) (m : String) : Type 0 where
  pub response : Response
  pub body : Json
  pub number : ℕ
  pub received : r ≡ some response
  pub parsed : response.body ≡ some body
  pub success : is_success response.status_code ≡ true
  pub acknowledged : get "ok" body ≡ Json.bool true
  pub identified : get "message_id" (get "result" body) ≡ Json.num (suc number)
  pub printed : m ≡ show (suc number)

read_message_id-number :
    (j : Json) (m : String)
    → read_message_id j ≡ Answer.message_id m
    → (n : ℕ) × (j ≡ Json.num (suc n)) × (m ≡ show (suc n))
read_message_id-number (Json.num (suc n)) m e = (n, refl, ground arith)
read_message_id-number _ m e = cc

pub true_json : (j : Json) → is_true_json j ≡ true → j ≡ Json.bool true
true_json (Json.bool b) e = ap Json.bool e
true_json _ e = cc

read_result :
    (j : Json) (m : String)
    → read_message (Call.result j) ≡ Answer.message_id m
    → read_message_id (get "message_id" j) ≡ Answer.message_id m
unfolding read_message
read_result j m e = elim (Bool-cases (is_dict j)) [
  | inl dict ↦ simp dict at e
  | inr other ↦
      let differ : Answer.response "Telegram sendMessage returned malformed data."
          ≡ Answer.message_id m =
        simp other at e in
      cc
]

-- The JSON body of a response that gave a message.
body_confirmed :
    (status : ℕ) (body : Json) (m : String)
    → read_message (read_body status (some body)) ≡ Answer.message_id m
    → (is_success status ≡ true)
      × (get "ok" body ≡ Json.bool true)
      × ((n : ℕ) × (get "message_id" (get "result" body) ≡ Json.num (suc n)) × (m ≡ show (suc n)))
unfolding read_body read_message
body_confirmed status body m e = elim (Bool-cases (is_dict body)) [
  | inr other ↦ (elim (malformed-unsent status m (simp other at e)) [ ])
  | inl dict ↦ elim (Bool-cases (is_success status && is_true_json (get "ok" body))) [
    | inr failed ↦ (elim (api_error-unsent status body m (simp (dict, failed) at e)) [ ])
    | inl good ↦
        let (n, number, printed) =
          read_message_id-number (get "message_id" (get "result" body)) m
            (read_result (get "result" body) m (simp (dict, good) at e)) in
        (ground arith, true_json (get "ok" body) (ground arith), (n, number, printed))
  ]
]

read_body-Confirmed :
    (r : Response) (o : Option Json) (m : String)
    → r.body ≡ o
    → read_message (read_body r.status_code o) ≡ Answer.message_id m
    → Confirmed (some r) m
unfolding read_body read_message
read_body-Confirmed r none m parsed e = (elim (malformed-unsent r.status_code m e) [ ])
read_body-Confirmed r (some body) m parsed e =
    let (good, acknowledged, (n, number, printed)) = body_confirmed r.status_code body m e in
    record {
      response = r;
      body = body;
      number = n;
      received = refl;
      parsed = parsed;
      success = good;
      acknowledged = acknowledged;
      identified = number;
      printed = printed;
    }

-- A message counts as sent only on a successful status, an acknowledging body and a positive integer
-- identifier in it, whose decimal digits are what is stored.
pub send_message-Confirmed :
    (r : Option Response) (m : String) → send_message r ≡ Answer.message_id m → Confirmed r m
unfolding send_message call read_message
send_message-Confirmed none m e = cc
send_message-Confirmed (some r) m e = read_body-Confirmed r r.body m refl e
