-- ===== src/Horizontal/Delivery.antt =====
-- Whom an event reaches over several nodes, by internal/adaptersHorizontal.go and
-- internal/adaptersRedis.go.
use pusher.Prelude.{
  ◌≡◌, ◌≢◌, refl, true, false, ◌&&◌, not, ◌↔◌, none, some, List, [], ◌∷◌, arith, is_nil, Text, ◌==◌,
  eq_iff, eq_refl, get, has_prefix, Occurs,
}
use pusher.ChannelName.{server_to_user_prefix}
use pusher.Socket.{Ref}
use pusher.Namespace
use pusher.Namespace.{Namespace}
use pusher.LocalAdapter.{Adapter, namespace}
use pusher.LocalAdapter.Delivery.{send_reaches}
use pusher.Horizontal.Relay.{over_the_wire, send, on_message}

has_prefix_self : (s : Text) → has_prefix s s ≡ true
unfolding has_prefix
has_prefix_self [] = refl
has_prefix_self (c ∷ s) = ground (arith, has_prefix_self s)

-- An event that one node sends to an ordinary channel reaches on another node, for an app that both
-- have, exactly the connections in the channel: also the one that the sender excludes. On the sending
-- node it reaches those but the excluded one, and its own copy of the message is ignored there.
pub send_everywhere :
    (uuid other : Text) (l k : Adapter) (redis app c body except : Text) (n m : Namespace)
    (ws : Ref)
    → uuid ≢ other
    → is_nil app ≡ false
    → is_nil c ≡ false
    → is_nil body ≡ false
    → namespace l app ≡ some n
    → namespace k app ≡ some m
    → has_prefix c server_to_user_prefix ≡ false
    → (here there : List Ref) × ((send uuid l app c body except).1 ≡ some here)
      × (on_message other redis k redis (over_the_wire (send uuid l app c body except).0)
          ≡ some there)
      × (on_message uuid redis l redis (over_the_wire (send uuid l app c body except).0) ≡ none)
      × (Occurs ws here ↔ (
          (id : Text) × (Namespace.is_in_channel n id c ≡ true)
          × (get n.sockets id ≡ some ws)
          × ((not (is_nil except) && id == except) ≡ false)))
      × (Occurs ws there
          ↔ ((id : Text) × (Namespace.is_in_channel m id c ≡ true) × (get m.sockets id ≡ some ws)))
unfolding send on_message over_the_wire
send_everywhere uuid other l k redis app c body except n m ws ne a b d en em plain =
    let (here, sent, reach) = send_reaches l app c except n ws en plain in
    let (there, sent', reach') = send_reaches k app c [] m ws em plain in
    (
      here,
      there,
      sent,
      ground (arith, has_prefix_self redis, eq_iff other uuid, ne, a, b, d, sent'),
      ground (arith, has_prefix_self redis, eq_refl uuid),
      reach,
      (λ o. let (id, x, y, z) = reach'.0 o in (id, x, y), λ p. reach'.1 (p.0, p.1, p.2, refl)),
    )
