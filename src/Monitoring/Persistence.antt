-- ===== src/Monitoring/Persistence.antt =====
-- `persist_source_posts` (apps/monitoring/services.py) against the abstract store.
use quota_radar.Prelude.{
  ℕ, suc, ◌+◌, String, ◌≡◌, refl, ap, ◌∙◌, inl, inr, true, Option, none, some, List, [], ◌∷◌, arith,
  eq_iff, str_eq, is_some, Bool-cases, length, All, All-implies,
}
use quota_radar.Table.{first}
use quota_radar.Action.{pure, pure, ◌>>=◌, ok}
use quota_radar.Models.Sources.{SourcePost}
use quota_radar.Models.World.{World}
use quota_radar.Monitoring.Normalization.{NormalizedSourcePost}
use quota_radar.Monitoring.Ingestion.{
  PersistedPosts, has_external_id, new_post, get_or_create_post, counted, persist_source_posts,
}
use quota_radar.Monitoring.PostStore.{
  Store, put_absent, put_all, view, stored-first, get_or_create-view, get_or_create-ok,
  put_all-same,
}

counted-total :
    (created : Option ℕ) (r : PersistedPosts)
    → (counted created r).created_posts + (counted created r).existing_posts
      ≡ suc (r.created_posts + r.existing_posts)
counted-total none r = omega arith
counted-total (some pk) r = omega arith

-- The loop over the prepared posts always returns, counts every post as created or existing, and
-- has the effect that the abstract store promises: of several posts under one X id the first stands.
pub persist-refines :
    (source : ℕ) (prepared : List NormalizedSourcePost) (w : World)
    → (r : PersistedPosts) × (v : World) × (persist_source_posts source prepared w ≡ (ok r, v))
      × (r.created_posts + r.existing_posts ≡ length prepared)
      × ((key : String) → view v key ≡ put_all source prepared (view w) key)
unfolding persist_source_posts put_all ◌>>=◌
persist-refines source [] w = (_, w, refl, refl, λ key. refl)
persist-refines source (payload ∷ prepared) w =
    let (created, e) = get_or_create-ok source payload w in
    let w' : World = (get_or_create_post source payload w).1 in
    let (r, v, e', total, same) = persist-refines source prepared w' in
    (
      counted created r,
      v,
      (rw (e, e') refl),
      omega (arith, counted-total created r),
      λ key.
          same key
          ∙ put_all-same source prepared (view w')
              (put_absent payload.external_id (new_post source payload) (view w))
              (get_or_create-view source payload w) key,
    )

-- The post under this id is in the store.
abbrev Known : Store → NormalizedSourcePost → Type 0
Known store payload = is_some (store payload.external_id) ≡ true

put_absent-known :
    (id key : String) (p : SourcePost) (store : Store)
    → is_some (store key) ≡ true
    → put_absent id p store key ≡ store key
unfolding put_absent
put_absent-known id key p store known = elim (Bool-cases (str_eq id key)) [
  | inl same ↦ let here : id ≡ key = (eq_iff id key).0 same in rw (here, known) refl
  | inr other ↦ ground arith
]

put_absent-here :
    (id : String) (p : SourcePost) (store : Store) → is_some (put_absent id p store id) ≡ true
unfolding put_absent
put_absent-here id p store =
    let same : str_eq id id ≡ true = (eq_iff id id).1 refl in
    elim (Bool-cases (is_some (store id))) [
      | inl known ↦ rw known known
      | inr absent ↦ rw (absent, same) refl
    ]

put_all-known :
    (source : ℕ) (prepared : List NormalizedSourcePost) (store : Store) (key : String)
    → is_some (store key) ≡ true
    → put_all source prepared store key ≡ store key
unfolding put_all
put_all-known source [] store key known = refl
put_all-known source (payload ∷ prepared) store key known =
    let here = put_absent-known payload.external_id key (new_post source payload) store known in
    put_all-known source prepared _ key (rw here known) ∙ here

put_all-Known :
    (source : ℕ) (prepared : List NormalizedSourcePost) (store : Store)
    → All (Known (put_all source prepared store)) prepared
unfolding put_all
put_all-Known source [] store = tt
put_all-Known source (payload ∷ prepared) store =
    let store' : Store = put_absent payload.external_id (new_post source payload) store in
    let here = put_absent-here payload.external_id (new_post source payload) store in
    (
      rw (put_all-known source prepared store' payload.external_id here) here,
      put_all-Known source prepared store',
    )

persist-Known :
    (source : ℕ) (prepared : List NormalizedSourcePost) (w : World)
    → All (Known (view w)) prepared
    → persist_source_posts source prepared w ≡ (
      ok (record { created_posts = 0; existing_posts = length prepared; created_post_ids = [] }),
      w,
    )
unfolding persist_source_posts get_or_create_post pure ◌>>=◌
persist-Known source [] w known = refl
persist-Known source (payload ∷ prepared) w (here, known) =
    let found : is_some (first (has_external_id payload.external_id) w.posts.rows) ≡ true =
      stored-first payload.external_id w.posts.rows ∙ here in
    rw (found, persist-Known source prepared w known)
      (ap (λ n. (ok (record { created_posts = 0; existing_posts = n; created_post_ids = [] }), w))
        (omega arith))

-- The same posts a second time, from any source: no row is added, and all are counted as existing.
pub persist-again :
    (source again : ℕ) (prepared : List NormalizedSourcePost) (w : World)
    → persist_source_posts again prepared (persist_source_posts source prepared w).1 ≡ (
      ok (record { created_posts = 0; existing_posts = length prepared; created_post_ids = [] }),
      (persist_source_posts source prepared w).1,
    )
persist-again source again prepared w =
    let (r, v, e, total, same) = persist-refines source prepared w in
    rw e (
      persist-Known again prepared v (
        All-implies (λ payload known. rw (same payload.external_id) known) prepared
          (put_all-Known source prepared (view w))))
