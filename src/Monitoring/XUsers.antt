-- ===== src/Monitoring/XUsers.antt =====
-- The user lookup of the X client (apps/monitoring/x_api.py). `str.casefold` is a parameter, for its
-- table of foldings is Python's own.
use quota_radar.Text.{strip}
use quota_radar.Text.Lines.{join}
use quota_radar.Text.Integer.{isdigit}
use quota_radar.Prelude.{String, Option, none, some, List, [], ◌∷◌, if◌then◌else◌, nonempty}
use quota_radar.Json.{Json, get, or_default, empty_list, as_list, all_dicts}
use quota_radar.Action.{Result, ok, and_then}
use quota_radar.Monitoring.XApi.{XRequest, XAnswer, get_json, response_error}

-- A `dict` from texts to texts, the last write first.
abbrev pub Mapping : Type 0
Mapping = List (String × String)

-- `[username.strip() for username in usernames if username.strip()]`
unfoldable pub stripped_names : List String → List String
stripped_names [] = []
stripped_names (s ∷ ss) =
    let rest = stripped_names ss in if nonempty (strip s) then strip s ∷ rest else rest

module _ (casefold : String → String) where
  abbrev pub add_user_id : String → String → Mapping → Result Mapping
  add_user_id username user_id found =
      if isdigit user_id
      then ok ((casefold username, user_id) ∷ found)
      else response_error "X user lookup returned an invalid User ID."

  abbrev pub add_user : Json → Json → Mapping → Result Mapping
  add_user (Json.str username) (Json.str user_id) found = add_user_id username user_id found
  add_user username user_id found = response_error "X user lookup returned malformed data."

  unfoldable pub read_users : List Json → Mapping → Result Mapping
  read_users [] found = ok found
  read_users (user ∷ users) found =
      and_then (add_user (get "username" user) (get "id" user) found) (read_users users)

  abbrev pub checked_users : Option (List Json) → Result Mapping
  checked_users none = response_error "X user lookup returned malformed data."
  checked_users (some users) =
      if all_dicts users
      then read_users users []
      else response_error "X user lookup returned malformed data."

  abbrev pub lookup_names : (XRequest → XAnswer) → List String → Result Mapping
  lookup_names serve [] = ok []
  lookup_names serve (name ∷ names) =
      and_then (get_json (serve (XRequest.users_by (join "," (name ∷ names)))))
        λ payload. checked_users (as_list (or_default (get "data" payload) empty_list))

  unfoldable pub lookup_users : (XRequest → XAnswer) → List String → Result Mapping
  unfolding stripped_names read_users
  lookup_users serve usernames = lookup_names serve (stripped_names usernames)
