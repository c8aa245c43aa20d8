-- ===== src/Monitoring/PostIdOrder.antt =====
-- Lemmas on the order of post ids (apps/monitoring/services.py).
use quota_radar.Text.{int, strip}
use quota_radar.Text.Integer.{ℤ, ltz, text_lt}
use quota_radar.Prelude.{
  String, ◌≡◌, refl, sym, ap, ◌∙◌, inl, inr, true, false, arith, nonempty, Bool-cases,
}
use quota_radar.Monitoring.PostIds.{PostId, sortable_post_id, id_lt, older, newer_of}

text_lt_trans : (s t u : String) → text_lt s t ≡ true → text_lt t u ≡ true → text_lt s u ≡ true
unfolding text_lt
text_lt_trans s String.[] u h k = cc
text_lt_trans s (String.◌∷◌ d t) String.[] h k = cc
text_lt_trans String.[] (String.◌∷◌ d t) (String.◌∷◌ e u) h k = refl
text_lt_trans (String.◌∷◌ c s) (String.◌∷◌ d t) (String.◌∷◌ e u) h k =
    ground (arith, text_lt_trans s t u)

ltz_trans : (a b c : ℤ) → ltz a b ≡ true → ltz b c ≡ true → ltz a c ≡ true
ltz_trans (ℤ.pos a) (ℤ.pos b) (ℤ.pos c) h k = ground arith
ltz_trans (ℤ.pos a) (ℤ.pos b) (ℤ.negsuc c) h k = cc
ltz_trans (ℤ.pos a) (ℤ.negsuc b) c h k = cc
ltz_trans (ℤ.negsuc a) (ℤ.pos b) (ℤ.pos c) h k = refl
ltz_trans (ℤ.negsuc a) (ℤ.pos b) (ℤ.negsuc c) h k = cc
ltz_trans (ℤ.negsuc a) (ℤ.negsuc b) (ℤ.pos c) h k = refl
ltz_trans (ℤ.negsuc a) (ℤ.negsuc b) (ℤ.negsuc c) h k = ground arith

id_lt_trans : (a b c : PostId) → id_lt a b ≡ true → id_lt b c ≡ true → id_lt a c ≡ true
id_lt_trans (PostId.text a) (PostId.text b) (PostId.text c) h k = text_lt_trans a b c h k
id_lt_trans (PostId.text a) (PostId.text b) (PostId.number c) h k = refl
id_lt_trans (PostId.text a) (PostId.number b) (PostId.text c) h k = cc
id_lt_trans (PostId.text a) (PostId.number b) (PostId.number c) h k = refl
id_lt_trans (PostId.number a) (PostId.text b) c h k = cc
id_lt_trans (PostId.number a) (PostId.number b) (PostId.text c) h k = cc
id_lt_trans (PostId.number a) (PostId.number b) (PostId.number c) h k = ltz_trans a b c h k

text_lt_irrefl : (s : String) → text_lt s s ≡ false
unfolding text_lt
text_lt_irrefl String.[] = refl
text_lt_irrefl (String.◌∷◌ c s) = ground (arith, text_lt_irrefl s)

ltz_irrefl : (a : ℤ) → ltz a a ≡ false
ltz_irrefl (ℤ.pos a) = ground arith
ltz_irrefl (ℤ.negsuc a) = ground arith

id_lt_irrefl : (a : PostId) → id_lt a a ≡ false
id_lt_irrefl (PostId.text s) = text_lt_irrefl s
id_lt_irrefl (PostId.number a) = ltz_irrefl a

-- The second id is as new as the first.
abbrev pub AsNew : String → String → Type 0
AsNew a b = older b a ≡ false

pub AsNew-refl : (a : String) → AsNew a a
AsNew-refl a = id_lt_irrefl (sortable_post_id a)

-- A newer id is as new as what the older one was as new as.
pub AsNew-older : (a b c : String) → AsNew a b → older b c ≡ true → AsNew a c
AsNew-older a b c h k = elim (Bool-cases (older c a)) [
  | inl before ↦
      let again =
        id_lt_trans (sortable_post_id b) (sortable_post_id c) (sortable_post_id a) k before in
      cc
  | inr e ↦ e
]

pub AsNew-newer_of : (a b c : String) → AsNew a b → AsNew a (newer_of b c)
AsNew-newer_of a b c h = elim (Bool-cases (older b c)) [
  | inl e ↦ rw e (AsNew-older a b c h e)
  | inr e ↦ rw e h
]

-- Nothing comes before the empty id.
text_lt-empty : (s : String) → text_lt s "" ≡ false
unfolding text_lt
text_lt-empty s = refl

least : (a : PostId) → id_lt a (PostId.text "") ≡ false
least (PostId.text s) = text_lt-empty s
least (PostId.number n) = refl

sortable-empty : sortable_post_id "" ≡ PostId.text ""
unfolding sortable_post_id int strip
sortable-empty = refl

minimal : (a : PostId) → id_lt (PostId.text "") a ≡ false → a ≡ PostId.text ""
unfolding text_lt
minimal (PostId.text String.[]) h = refl
minimal (PostId.text (String.◌∷◌ c s)) h = cc
minimal (PostId.number n) h = cc

-- Whatever is not newer than the empty id is older than no id.
pub AsNew-empty : (a c : String) → AsNew a "" → AsNew a c
AsNew-empty a c h =
    let here = sortable_post_id a in
    let same : here ≡ PostId.text "" =
      minimal here (ap (λ b. id_lt b here) (sym sortable-empty) ∙ h) in
    ap (id_lt (sortable_post_id c)) same ∙ least (sortable_post_id c)

pub is_empty : (s : String) → nonempty s ≡ false → s ≡ ""
is_empty String.[] e = refl
is_empty (String.◌∷◌ c s) e = cc
