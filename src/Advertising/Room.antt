-- ===== src/Advertising/Room.antt =====
-- The room that alerts leave, and the advertising of each active campaign
-- (apps/advertising/budget.py).
use quota_radar.Text.Utf16.{utf16_length}
use quota_radar.Prelude.{
  ℕ, ◌+◌, ◌-◌, ◌≤◌, ◌<◌, max, String, ◌≡◌, refl, true, List, [], ◌∷◌, arith, Bool-cases, inl, inr,
}
use quota_radar.Json.{Json}
use quota_radar.Table.{Rows}
use quota_radar.Action.{and_then, and_then-ok, ok, ok_injective}
use quota_radar.Models.Telegram.{Entity}
use quota_radar.Models.Advertising.{Campaign}
use quota_radar.Models.World.{World}
use quota_radar.Advertising.Formatting.{ad_separator, message_limit, Rendered, campaign_copy}
use quota_radar.Advertising.Budget.{is_active, needed, reserve_of, quota_message_limit}

module _ (render_markup : String → Json → Rendered) where
  -- A text of n units, a blank line and the campaign's copy are one Telegram message.
  abbrev pub GoesBelow : ℕ → Campaign → Type 0
  GoesBelow n c =
      (copy : String × List Entity) × (campaign_copy render_markup c ≡ ok copy)
      × (n + (utf16_length ad_separator + utf16_length copy.0) ≤ message_limit)

  -- Each active campaign goes below a text of n units.
  abbrev pub HasRoom : World → ℕ → Rows Campaign → Type 0
  HasRoom w n [] = Unit
  HasRoom w n ((id, c) ∷ rs) = (is_active w c ≡ true → GoesBelow n c) × HasRoom w n rs

  needed-GoesBelow :
      (n m : ℕ) (c : Campaign)
      → needed render_markup c ≡ ok m
      → n + m ≤ message_limit
      → GoesBelow n c
  needed-GoesBelow n m c e fits =
      let (copy, copied, sum) = and_then-ok (campaign_copy render_markup c) _ e in
      let same = ok_injective sum in (copy, copied, omega (arith, same, fits))

  reserve_of-HasRoom :
      (w : World) (n m : ℕ) (rs : Rows Campaign)
      → reserve_of render_markup w rs ≡ ok m
      → n + m ≤ message_limit
      → HasRoom w n rs
  unfolding reserve_of
  reserve_of-HasRoom w n m [] e fits = tt
  reserve_of-HasRoom w n m ((id, c) ∷ rs) e fits = elim (Bool-cases (is_active w c)) [
    | inr passive ↦ ((λ active. cc), reserve_of-HasRoom w n m rs (simp passive at e) fits)
    | inl active ↦
        let both : and_then (needed render_markup c)
              (λ a. and_then (reserve_of render_markup w rs) (λ b. ok (max a b)))
            ≡ ok m =
          simp active at e in
        let (a, here, e1) = and_then-ok (needed render_markup c) _ both in
        let (b, there, e2) = and_then-ok (reserve_of render_markup w rs) _ e1 in
        let same : max a b ≡ m = ok_injective e2 in
        (
          (λ again. needed-GoesBelow n a c here (omega (arith, same, fits))),
          reserve_of-HasRoom w n b rs there (omega (arith, same, fits)),
        )
  ]

  HasRoom-reserve_of :
      (w : World) (n : ℕ) (rs : Rows Campaign)
      → n ≤ message_limit
      → HasRoom w n rs
      → (m : ℕ) × (reserve_of render_markup w rs ≡ ok m) × (n + m ≤ message_limit)
  unfolding reserve_of and_then
  HasRoom-reserve_of w n [] short h = (0, refl, omega (arith, short))
  HasRoom-reserve_of w n ((id, c) ∷ rs) short h =
      let (m, rest, fits) = HasRoom-reserve_of w n rs short h.1 in
      elim (Bool-cases (is_active w c)) [
        | inr passive ↦ (m, rw passive rest, fits)
        | inl active ↦
            let (copy, copied, below) = h.0 active in
            (
              max (utf16_length copy.0 + utf16_length ad_separator) m,
              rw active (rw copied (rw rest refl)),
              omega (arith, below, fits),
            )
      ]

  -- The limit is kept exactly by the texts below which every active campaign goes.
  pub quota_message_limit-HasRoom :
      (w : World) (n limit : ℕ)
      → 0 < n
      → quota_message_limit render_markup w ≡ ok limit
      → n ≤ limit
      → HasRoom w n w.campaigns.rows
  unfolding quota_message_limit
  quota_message_limit-HasRoom w n limit some_text e le =
      let (m, reserve, left) = and_then-ok (reserve_of render_markup w w.campaigns.rows) _ e in
      let same : message_limit - m ≡ limit = ok_injective left in
      reserve_of-HasRoom w n m w.campaigns.rows reserve (omega (arith, same, le, some_text))

  pub HasRoom-quota_message_limit :
      (w : World) (n : ℕ)
      → n ≤ message_limit
      → HasRoom w n w.campaigns.rows
      → (limit : ℕ) × (quota_message_limit render_markup w ≡ ok limit) × (n ≤ limit)
  unfolding quota_message_limit and_then
  HasRoom-quota_message_limit w n short h =
      let (m, reserve, fits) = HasRoom-reserve_of w n w.campaigns.rows short h in
      (message_limit - m, rw reserve refl, omega (arith, fits))
