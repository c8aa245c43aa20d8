-- ===== src/Monitoring/PostStore.antt =====
-- The table of source posts seen as a store of posts under their X ids
-- (apps/sources/models.py, `external_id = models.CharField(unique=True)`).

use quota_radar.Prelude.{
  ℕ, String, ◌≡◌, refl, ap, ◌∙◌, fun_ext, inl, inr, true, false, Option, none, some, List, [], ◌∷◌,
  ◌++◌, arith, eq_iff, if◌then◌else◌, str_eq, is_some, Bool-cases,
}
use quota_radar.Table.{Rows, first, create}
use quota_radar.Action.{◌>>=◌, ok}
use quota_radar.Models.Sources.{SourcePost}
use quota_radar.Models.World.{World}
use quota_radar.Monitoring.Normalization.{NormalizedSourcePost}
use quota_radar.Monitoring.Ingestion.{has_external_id, new_post, get_or_create_post}

-- The post under this X id.
unfoldable pub stored : String → Rows SourcePost → Option SourcePost
stored id [] = none
stored id ((k, p) ∷ rs) = if has_external_id id p then some p else stored id rs

-- The abstract store, and what it promises of a write: the first one under an id stands.
abbrev pub Store : Type 0
Store = String → Option SourcePost

unfoldable pub put_absent : String → SourcePost → Store → Store
put_absent id p store key =
    if is_some (store id) then store key else if str_eq id key then some p else store key

unfoldable pub put_all : ℕ → List NormalizedSourcePost → Store → Store
put_all source [] store = store
put_all source (payload ∷ prepared) store =
    put_all source prepared (put_absent payload.external_id (new_post source payload) store)

abbrev pub view : World → Store
view w id = stored id w.posts.rows

pub stored-first :
    (id : String) (rs : Rows SourcePost)
    → is_some (first (has_external_id id) rs) ≡ is_some (stored id rs)
unfolding stored first
stored-first id [] = refl
stored-first id ((k, p) ∷ rs) = ground (arith, stored-first id rs)

stored-append :
    (id : String) (k : ℕ) (p : SourcePost) (rs : Rows SourcePost)
    → stored id (rs ++ ((k, p) ∷ [])) ≡ (
        if is_some (stored id rs)
        then stored id rs
        else if has_external_id id p
        then some p
        else none)
unfolding stored
stored-append id k p [] = ground arith
stored-append id k p ((j, q) ∷ rs) = ground (arith, stored-append id k p rs)

if-absent :
    (o : Option SourcePost) (p : SourcePost)
    → is_some o ≡ false
    → (if is_some o then o else some p) ≡ some p
if-absent none p e = refl
if-absent (some q) p e = cc

if-present : (o : Option SourcePost) → (if is_some o then o else none) ≡ o
if-present none = refl
if-present (some q) = refl

-- A new row under an id that has none.
stored-new :
    (id key : String) (k : ℕ) (p : SourcePost) (rs : Rows SourcePost)
    → p.external_id ≡ id
    → is_some (stored id rs) ≡ false
    → stored key (rs ++ ((k, p) ∷ [])) ≡ (if str_eq id key then some p else stored key rs)
stored-new id key k p rs e absent = elim (Bool-cases (str_eq id key)) [
  | inl same ↦
      let here : id ≡ key = (eq_iff id key).0 same in
      let absent' : is_some (stored key rs) ≡ false = rw (← here) absent in
      let hit : has_external_id key p ≡ true = rw (e, here) ((eq_iff key key).1 refl) in
      stored-append key k p rs ∙ (rw (same, hit) (if-absent (stored key rs) p absent'))
  | inr other ↦
      let missed : has_external_id key p ≡ false = rw e other in
      stored-append key k p rs ∙ (rw (other, missed) (if-present (stored key rs)))
]

-- One payload: the store changes as promised.
pub get_or_create-view :
    (source : ℕ) (payload : NormalizedSourcePost) (w : World) (key : String)
    → view (get_or_create_post source payload w).1 key
      ≡ put_absent payload.external_id (new_post source payload) (view w) key
unfolding get_or_create_post put_absent create ◌>>=◌
get_or_create-view source payload w key =
    let same = stored-first payload.external_id w.posts.rows in
    elim (Bool-cases (is_some (stored payload.external_id w.posts.rows))) [
      | inl known ↦ rw (same, known) refl
      | inr absent ↦
          rw (same, absent)
            (stored-new payload.external_id key w.posts.next (new_post source payload) w.posts.rows
              refl absent)
    ]

pub get_or_create-ok :
    (source : ℕ) (payload : NormalizedSourcePost) (w : World)
    → (created : Option ℕ) × (get_or_create_post source payload w
        ≡ (ok created, (get_or_create_post source payload w).1))
unfolding get_or_create_post ◌>>=◌
get_or_create-ok source payload w =
    elim (Bool-cases (is_some (first (has_external_id payload.external_id) w.posts.rows))) [
      | inl known ↦ rw known (none, refl)
      | inr absent ↦ rw absent (some w.posts.next, refl)
    ]

pub put_all-same :
    (source : ℕ) (prepared : List NormalizedSourcePost) (s t : Store)
    → ((key : String) → s key ≡ t key)
    → (key : String) → put_all source prepared s key ≡ put_all source prepared t key
put_all-same source prepared s t e key = ap (λ u. put_all source prepared u key) (fun_ext e)
