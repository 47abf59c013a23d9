-- ===== src/Queue/Keys.antt =====
-- The flap-detection keys of internal/queues/queueAbstract.go tell apart what they should.
use pusher.Prelude.{
  refl, ◌↔◌, ◌≡◌, ◌≢◌, ap, true, ◌++◌, Text, codes, lacks, split_at_separator, append_cancel_left,
  true≢false, sym, ◌∙◌, lacks-append_cons, ℤ,
}
use pusher.ChannelName.{valid_channel}
use pusher.ChannelName.Valid.{valid_channel-lacks_colon}
use pusher.Queue.{channel_key, member_key}

-- both keys up to the second colon
app_part :
    (a b x y : Text)
    → lacks b':' a ≡ true
    → lacks b':' b ≡ true
    → codes "app:" ++ (a ++ (codes ":channel:" ++ x))
      ≡ codes "app:" ++ (b ++ (codes ":channel:" ++ y))
    → (a ≡ b) × (x ≡ y)
app_part a b x y la lb e =
    let (p, q) =
      split_at_separator b':' a b (codes "channel:" ++ x) (codes "channel:" ++ y) la lb
        (append_cancel_left (codes "app:") _ _ e) in
    (p, append_cancel_left (codes "channel:") x y q)

channel_part :
    (c d u v : Text)
    → lacks b':' c ≡ true
    → lacks b':' d ≡ true
    → c ++ (codes ":member:" ++ u) ≡ d ++ (codes ":member:" ++ v)
    → (c ≡ d) × (u ≡ v)
channel_part c d u v lc ld e =
    let (p, q) =
      split_at_separator b':' c d (codes "member:" ++ u) (codes "member:" ++ v) lc ld e in
    (p, append_cancel_left (codes "member:") u v q)

-- For app ids without a colon and accepted channel names: two channel keys are equal exactly for the
-- same app and channel, two member keys exactly for the same app, channel and user, and no channel key is a
-- member key.
pub keys_injective :
    (a b c d u v : Text) (m : ℤ)
    → lacks b':' a ≡ true
    → lacks b':' b ≡ true
    → valid_channel c m ≡ true
    → valid_channel d m ≡ true
    → ((channel_key a c ≡ channel_key b d) ↔ ((a ≡ b) × (c ≡ d)))
      × ((member_key a c u ≡ member_key b d v) ↔ ((a ≡ b) × (c ≡ d) × (u ≡ v)))
      × (channel_key a c ≢ member_key b d v)
unfolding channel_key member_key
keys_injective a b c d u v m la lb vc vd =
    let lc = valid_channel-lacks_colon c m vc in
    let ld = valid_channel-lacks_colon d m vd in
    (
      (λ e. app_part a b c d la lb e, λ h. rw (h.0, h.1) refl),
      (
        λ e.
            let (p, q) =
              app_part a b (c ++ (codes ":member:" ++ u)) (d ++ (codes ":member:" ++ v)) la lb e in
            let (r, s) = channel_part c d u v lc ld q in (p, r, s),
        λ h. rw (h.0, h.1, h.2) refl,
      ),
      λ e.
          let (p, q) = app_part a b c (d ++ (codes ":member:" ++ v)) la lb e in
          true≢false (sym lc ∙ ap (lacks b':') q ∙ lacks-append_cons b':' d (codes "member:" ++ v)),
    )
