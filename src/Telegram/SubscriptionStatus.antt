-- ===== src/Telegram/SubscriptionStatus.antt =====
-- What the subscription commands promise: the status that follows them, and the targets they leave.

use quota_radar.Prelude.{
  ℕ, String, ◌≡◌, refl, Bool, true, false, Option, none, some, arith, [], ◌∷◌, eq_iff, Bool-cases,
  inl, inr,
}
use quota_radar.Table.{Rows, find, first, adjust, change, at_pk, IsKeyed}
use quota_radar.Table.Keys.{adjust-absent}
use quota_radar.Action.{pure, atomic, ◌>>=◌, ◌>>◌}
use quota_radar.Action.Gives.{Post, Post-settle}
use quota_radar.Models.Telegram.{DeliveryTarget}
use quota_radar.Models.World.{World}
use quota_radar.Advertising.Queries.{change_targets}
use quota_radar.Telegram.Subscriptions.{
  for_chat, private_for_chat, enabled_for_chat, with_enabled, disable_found, save_enabled, result,
  disable_private_chat, get_private_chat_status,
}

-- No chat is registered twice.
abbrev pub IsUnique : Rows DeliveryTarget → Type 0
IsUnique [] = Unit
IsUnique ((k, t) ∷ rs) = (first (for_chat t.telegram_chat_id) rs ≡ none) × IsUnique rs

none-enabled :
    (chat : String) (rs : Rows DeliveryTarget)
    → first (for_chat chat) rs ≡ none
    → first (enabled_for_chat chat) rs ≡ none
unfolding first
none-enabled chat [] e = refl
none-enabled chat ((k, t) ∷ rs) e = ground (arith, none-enabled chat rs)

same_chat :
    (chat : String) (t : DeliveryTarget)
    → private_for_chat chat t ≡ true
    → t.telegram_chat_id ≡ chat
same_chat chat t e = (eq_iff t.telegram_chat_id chat).0 (ground arith)

-- Switching off the target that the query finds leaves none that is switched on.
switched_off-first :
    (chat : String) (rs : Rows DeliveryTarget) {pk : ℕ} {t : DeliveryTarget}
    → IsKeyed rs
    → IsUnique rs
    → first (private_for_chat chat) rs ≡ some (pk, t)
    → first (enabled_for_chat chat) (adjust (at_pk pk (with_enabled false)) rs) ≡ none
unfolding first adjust find
switched_off-first chat [] keyed unique e = cc
switched_off-first chat ((k, t) ∷ rs) {pk} {t = t'} keyed unique e =
    elim (Bool-cases (private_for_chat chat t)) [
      | inl this ↦
          let chats = same_chat chat t this in
          let rest = none-enabled chat rs (rw chats at unique.0) in
          ground (arith, rest, adjust-absent k (with_enabled false) rs keyed.0)
      | inr other ↦ ground (arith, switched_off-first chat rs {pk = pk} {t = t'} keyed.1 unique.1)
    ]

absent-enabled :
    (chat : String) (rs : Rows DeliveryTarget)
    → first (private_for_chat chat) rs ≡ none
    → first (enabled_for_chat chat) rs ≡ none
unfolding first
absent-enabled chat [] e = refl
absent-enabled chat ((k, t) ∷ rs) e = ground (arith, absent-enabled chat rs)

already_off :
    (chat : String) (rs : Rows DeliveryTarget) {pk : ℕ} {t : DeliveryTarget}
    → IsUnique rs
    → first (private_for_chat chat) rs ≡ some (pk, t)
    → t.enabled ≡ false
    → first (enabled_for_chat chat) rs ≡ none
unfolding first
already_off chat [] unique e off = cc
already_off chat ((k, t) ∷ rs) {pk} {t = t'} unique e off =
    elim (Bool-cases (private_for_chat chat t)) [
      | inl this ↦
          let chats = same_chat chat t this in
          let rest = none-enabled chat rs (rw chats at unique.0) in ground arith
      | inr other ↦ ground (arith, already_off chat rs {pk = pk} {t = t'} unique.1)
    ]

abbrev pub Settled : String → Bool → World → Type 0
Settled chat b w = get_private_chat_status chat w ≡ result b false

module _ (is_digits is_channel_id : String → Bool) where
  saved_off :
      (chat : String) (w : World) (pk : ℕ) (o : Option DeliveryTarget)
      → first (enabled_for_chat chat) (adjust (at_pk pk (with_enabled false)) w.targets.rows) ≡ none
      → Post
          (λ r. Settled chat false)
          (λ v. v ≡ w)
          ((save_enabled is_digits is_channel_id pk false o >> pure (result false true)) w)
  unfolding save_enabled change_targets change ◌>>=◌ get_private_chat_status
  saved_off chat w pk none e = refl
  saved_off chat w pk (some t) e = rw e refl

  disabled_found :
      (chat : String) (w : World)
      → IsKeyed w.targets.rows
      → IsUnique w.targets.rows
      → (o : Option (ℕ × DeliveryTarget)) → first (private_for_chat chat) w.targets.rows ≡ o
      → Post (λ r. Settled chat false) (λ v. v ≡ w) (disable_found is_digits is_channel_id o w)
  unfolding disable_found pure get_private_chat_status
  disabled_found chat w keyed unique none e = rw (absent-enabled chat w.targets.rows e) refl
  disabled_found chat w keyed unique (some (pk, t)) e = elim (Bool-cases t.enabled) [
    | inl on ↦
        simp on (saved_off chat w pk _ (switched_off-first chat w.targets.rows keyed unique e))
    | inr off ↦ simp (off, already_off chat w.targets.rows unique e off) refl
  ]

  -- After an unsubscription the chat's status is off, also if it never subscribed; and where the command
  -- raises, nothing has changed. No two targets have one key or one chat ID.
  pub disable-status :
      (chat : String) (w : World)
      → IsKeyed w.targets.rows
      → IsUnique w.targets.rows
      → Post
          (λ r. Settled chat false)
          (λ v. v ≡ w)
          (disable_private_chat is_digits is_channel_id chat w)
  unfolding disable_private_chat atomic ◌>>=◌
  disable-status chat w keyed unique =
      let found = first (private_for_chat chat) w.targets.rows in
      Post-settle (λ r. Settled chat false) (λ v. v ≡ w) w
        (disable_found is_digits is_channel_id found w) refl
        (disabled_found chat w keyed unique found refl)
