-- ===== src/Monitoring/PostIds.antt =====
-- The order of post ids: numbers by value, above any other text (`_sortable_post_id` of
-- apps/monitoring/services.py).
use quota_radar.Text.{int}
use quota_radar.Text.Integer.{ℤ, ltz, text_lt}
use quota_radar.Prelude.{
  String, Bool, true, false, Option, none, some, List, [], ◌∷◌, if◌then◌else◌,
}

pub data PostId : Type 0 where
  text : String → PostId
  number : ℤ → PostId

abbrev pub id_of : String → Option ℤ → PostId
id_of value none = PostId.text value
id_of value (some n) = PostId.number n

unfoldable pub sortable_post_id : String → PostId
sortable_post_id value = id_of value (int value)

abbrev pub id_lt : PostId → PostId → Bool
id_lt (PostId.text s) (PostId.text t) = text_lt s t
id_lt (PostId.text s) (PostId.number n) = true
id_lt (PostId.number m) (PostId.text t) = false
id_lt (PostId.number m) (PostId.number n) = ltz m n

-- The first id is older than the second.
abbrev pub older : String → String → Bool
older a b = id_lt (sortable_post_id a) (sortable_post_id b)

-- `max((a, b), key=_sortable_post_id)`
abbrev pub newer_of : String → String → String
newer_of a b = if older a b then b else a

unfoldable pub newest_from : String → List String → String
newest_from best [] = best
newest_from best (id ∷ ids) = newest_from (newer_of best id) ids

-- `max(ids, key=_sortable_post_id, default="")`
abbrev pub newest : List String → String
newest [] = ""
newest (id ∷ ids) = newest_from id ids
