-- ===== src/Telegram/SubscriptionStart.antt =====
-- What subscribing promises (apps/telegram/subscriptions.py, `enable_private_chat`).
use quota_radar.Prelude.{
  ℕ, String, ◌≡◌, refl, Bool, true, false, is_some, Option, none, some, arith, [], ◌∷◌, ◌++◌,
  eq_iff, Bool-cases, Option-cases, inl, inr,
}
use quota_radar.Text.{strip}
use quota_radar.Table.{Rows, first, adjust, change, create, at_pk, first-holds}
use quota_radar.Action.{pure, raise, atomic, ◌>>=◌, ◌>>◌}
use quota_radar.Action.Gives.{Post, Post-settle}
use quota_radar.Models.Telegram.{DeliveryTarget, is_private_chat}
use quota_radar.Models.World.{World}
use quota_radar.Advertising.Queries.{change_targets}
use quota_radar.Telegram.Subscriptions.{
  result, for_chat, enabled_for_chat, with_enabled, private_target, clean, insert_target,
  save_enabled, enable_found, enable_private_chat, get_private_chat_status,
}

module _ {A : Type 0} where
  first-append :
      (p : A → Bool) (j : ℕ) (a : A) (rs : Rows A)
      → p a ≡ true
      → is_some (first p (rs ++ ((j, a) ∷ []))) ≡ true
  unfolding first
  first-append p j a [] e = ground arith
  first-append p j a ((k, b) ∷ rs) e = ground (arith, first-append p j a rs)

  first-other :
      (p q : A → Bool) (rs : Rows A) {k : ℕ} {a : A}
      → first p rs ≡ some (k, a)
      → q a ≡ true
      → is_some (first q rs) ≡ true
  unfolding first
  first-other p q [] e h = cc
  first-other p q ((j, b) ∷ rs) {k} {a} e h = ground (arith, first-other p q rs {k = k} {a = a})

  first-changed :
      (p q : A → Bool) (f : A → A) (rs : Rows A) {k : ℕ} {a : A}
      → first p rs ≡ some (k, a)
      → q (f a) ≡ true
      → is_some (first q (adjust (at_pk k f) rs)) ≡ true
  unfolding first adjust
  first-changed p q f [] e h = cc
  first-changed p q f ((j, b) ∷ rs) {k} {a} e h =
      ground (arith, first-changed p q f rs {k = k} {a = a})

abbrev pub IsOn : String → World → Type 0
IsOn chat w = get_private_chat_status chat w ≡ result true false

module _ (is_digits is_channel_id : String → Bool) where
  inserted :
      (chat : String) (w : World) (o : Option DeliveryTarget)
      → ((t : DeliveryTarget) → o ≡ some t → enabled_for_chat chat t ≡ true)
      → Post
          (λ r. IsOn chat)
          (λ v. v ≡ w)
          ((insert_target is_digits is_channel_id o >> pure (result true true)) w)
  unfolding insert_target ◌>>=◌ get_private_chat_status create
  inserted chat w none h = refl
  inserted chat w (some t) h =
      elim (Option-cases (first (for_chat t.telegram_chat_id) w.targets.rows)) [
        | inl free ↦
            simp
              (
                free,
                first-append (enabled_for_chat chat) w.targets.next t w.targets.rows (h t refl),
              )
              refl
        | inr (row, taken) ↦ simp taken refl
      ]

  save_enabled-IsOn :
      (chat : String) (w : World) (pk : ℕ) (o : Option DeliveryTarget)
      → is_some
          (first (enabled_for_chat chat) (adjust (at_pk pk (with_enabled true)) w.targets.rows))
        ≡ true
      → Post
          (λ r. IsOn chat)
          (λ v. v ≡ w)
          ((save_enabled is_digits is_channel_id pk true o >> pure (result true true)) w)
  unfolding save_enabled change_targets change ◌>>=◌ get_private_chat_status
  save_enabled-IsOn chat w pk none e = refl
  save_enabled-IsOn chat w pk (some t) e = rw e refl

  cleaned :
      (chat : String)
      → strip chat ≡ chat
      → (t : DeliveryTarget) → clean is_digits is_channel_id (private_target chat) ≡ some t
      → enabled_for_chat chat t ≡ true
  unfolding clean
  cleaned chat stripped t e = ground (arith, eq_iff chat chat)

  enabled_found :
      (chat : String) (w : World)
      → strip chat ≡ chat
      → (o : Option (ℕ × DeliveryTarget)) → first (for_chat chat) w.targets.rows ≡ o
      → Post (λ r. IsOn chat) (λ v. v ≡ w) (enable_found is_digits is_channel_id chat o w)
  unfolding enable_found pure raise get_private_chat_status
  enabled_found chat w stripped none e = inserted chat w _ (cleaned chat stripped)
  enabled_found chat w stripped (some (pk, t)) e =
      let here = first-holds (for_chat chat) w.targets.rows e in
      elim (Bool-cases (is_private_chat t)) [
        | inr channel ↦ simp channel refl
        | inl chats ↦ elim (Bool-cases t.enabled) [
          | inl on ↦
              simp
                (
                  chats,
                  on,
                  first-other (for_chat chat) (enabled_for_chat chat) w.targets.rows e
                      (ground arith),
                )
                refl
          | inr off ↦
              simp (chats, off)
                (save_enabled-IsOn chat w pk _ (
                  first-changed (for_chat chat) (enabled_for_chat chat) (with_enabled true)
                    w.targets.rows e (ground arith)))
        ]
      ]

  -- After a subscription the chat's status is on, and where the command raises, nothing has changed. The
  -- chat ID has no white space around it.
  pub enable-status :
      (chat : String) (w : World)
      → strip chat ≡ chat
      → Post (λ r. IsOn chat) (λ v. v ≡ w) (enable_private_chat is_digits is_channel_id chat w)
  unfolding enable_private_chat atomic ◌>>=◌
  enable-status chat w stripped =
      let found = first (for_chat chat) w.targets.rows in
      Post-settle (λ r. IsOn chat) (λ v. v ≡ w) w
        (enable_found is_digits is_channel_id chat found w) refl
        (enabled_found chat w stripped found refl)
