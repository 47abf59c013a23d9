-- ===== src/Serve/Admission.antt =====
-- Whom internal/serve.go lets in, and that the limit on connections holds.
use pusher.Prelude.{
  ℕ, ◌+◌, ◌≤◌, ◌≡◌, refl, ap, ◌∙◌, Bool, true, false, ◌↔◌, none, some, [], ◌∷◌, arith,
  if◌then◌else◌, is_some, length, Text, eq_refl, Map, get, put, get-put, ℤ, pos, eqb_self,
  Option-cases, inl, inr,
}
use pusher.App.{App}
use pusher.Namespace
use pusher.Namespace.{Namespace, blank}
use pusher.LocalAdapter
use pusher.LocalAdapter.{Adapter, namespace, store, update_channel_metrics, or_blank}
use pusher.Registry.{Registry, find_by_key}
use pusher.Session.World.{World, over_quota, send}
use pusher.Session.Messages.{watch}
use pusher.Serve.{
  validate_app, validate_connection_limits, supported_protocol, create_websocket,
  initialize_connection, admit, serve, connected, turned_away,
}
use pusher.Socket.{Ref, Heap, update}

length-put : (m : Map Ref) (k : Text) (v : Ref) → get m k ≡ none → length (put m k v) ≡ length m + 1
unfolding put get
length-put [] k v e = omega arith
length-put ((j, w) ∷ m) k v e = ground (arith, length-put m k v)

-- AddSocket of an id that the app does not have adds that socket and no other; of one that it has, it
-- gives an error and changes no socket.
add_socket-sockets :
    (h : Heap) (app : Text) (r : Ref) (l : Adapter)
    → is_some l.namespaces ≡ true
    → (is_some (LocalAdapter.add_socket h app r l).1
        ≡ is_some (get (LocalAdapter.sockets l app) (h r).id))
      × (LocalAdapter.sockets (LocalAdapter.add_socket h app r l).0 app ≡ (
          if is_some (get (LocalAdapter.sockets l app) (h r).id)
          then LocalAdapter.sockets l app
          else put (LocalAdapter.sockets l app) (h r).id r))
unfolding LocalAdapter.add_socket LocalAdapter.sockets Namespace.add_socket update_channel_metrics
    get
add_socket-sockets h app r l ready = elim (Option-cases l.namespaces) [
  | inl e ↦ absurd (ground (arith, e, ready))
  | inr (m, e) ↦
      let n' = (Namespace.add_socket h r (or_blank (get m app))).0 in
      elim (Option-cases (get m app)) [
        | inl f ↦ ground (arith, e, f, get-put m app n' app, eq_refl app)
        | inr (n, f) ↦ ground (arith, e, f, get-put m app n' app, eq_refl app)
      ]
]

initialize_connection-adapter :
    (app : App) (id : Text) (r : Ref) (s : World)
    → (initialize_connection app id r s).adapter ≡ s.adapter
unfolding initialize_connection send watch
initialize_connection-adapter app id r s = ground arith

-- the new connection stands under its id
new_id :
    (h : Heap) (r : Ref) (id : Text) (app : App) → (update h r (create_websocket id app) r).id ≡ id
unfolding create_websocket
new_id h r id app = rw (eqb_self r) refl

-- What admit comes to: a connection if the id is free, and otherwise the error for too many.
admit_lem :
    (app : App) (id : Text) (r : Ref) (s : World)
    → is_some s.adapter.namespaces ≡ true
    → ((admit app id r s).1 ≡ (
        if is_some (get (LocalAdapter.sockets s.adapter app.id) id)
        then turned_away over_quota
        else connected))
      × (LocalAdapter.sockets (admit app id r s).0.adapter app.id ≡ (
          if is_some (get (LocalAdapter.sockets s.adapter app.id) id)
          then LocalAdapter.sockets s.adapter app.id
          else put (LocalAdapter.sockets s.adapter app.id) id r))
unfolding admit
admit_lem app id r s ready =
    let h = update s.heap r (create_websocket id app) in
    let (a, b) = add_socket-sockets h app.id r s.adapter ready in
    let l = (LocalAdapter.add_socket h app.id r s.adapter).0 in
    let same = new_id s.heap r id app in
    let init = initialize_connection-adapter app id r (record s { heap = h; adapter = l }) in
    let before = LocalAdapter.sockets s.adapter app.id in
    let a' = a ∙ ap (λ x. is_some (get before x)) same in
    let b' = b ∙ ap (λ x. if is_some (get before x) then before else put before x r) same in
    let kept = ap (λ x. LocalAdapter.sockets x app.id) init in ground (arith, a', b', kept)

-- A client gets a connection exactly if the server is not closing, the upgrade succeeds, the protocol
-- is 7, the key is that of an app, which is enabled and has not reached its limit of connections, and
-- the socket id is not taken.
pub serve-connected_iff :
    (apps : Registry) (upgrades : Bool) (key : Text) (protocol : ℤ) (id : Text) (r : Ref)
    (s : World)
    → is_some s.adapter.namespaces ≡ true
    → ((serve apps upgrades key protocol id r s).1 ≡ connected) ↔ (
        (s.closing ≡ false)
        × (upgrades ≡ true)
        × (supported_protocol protocol ≡ true)
        × ((app : App) × (find_by_key apps key ≡ some app)
            × (app.enabled ≡ true)
            × (validate_connection_limits s.adapter app ≡ none)
            × (get (LocalAdapter.sockets s.adapter app.id) id ≡ none)))
unfolding serve validate_app
serve-connected_iff apps upgrades key protocol id r s ready =
    elim (Option-cases (find_by_key apps key)) [
      | inl e ↦ (λ h. absurd (ground (arith, e, h)), λ p. absurd (ground (arith, e, p)))
      | inr (app, e) ↦ elim (Option-cases (validate_connection_limits s.adapter app)) [
        | inr (x, f) ↦
            (λ h. absurd (ground (arith, e, f, h)), λ p. absurd (ground (arith, e, f, p)))
        | inl f ↦ (
          λ h.
              let q = admit_lem app id r s ready in
              let facts : (s.closing ≡ false)
                  × (upgrades ≡ true)
                  × (supported_protocol protocol ≡ true)
                  × (app.enabled ≡ true)
                  × (get (LocalAdapter.sockets s.adapter app.id) id ≡ none) =
                ground (arith, e, f, h, q) in
              (facts.0, facts.1, facts.2, (app, e, facts.3, f, facts.4)),
          λ p. ground (arith, e, f, p, admit_lem app id r s ready),
        )
      ]
    ]

-- The limit on connections holds: if the app of the key has a limit, and not more connections than
-- that before, it has not more afterwards, however the request ends.
pub serve_bounded :
    (apps : Registry) (upgrades : Bool) (key : Text) (protocol : ℤ) (id : Text) (r : Ref)
    (s : World) (app : App) (m : ℕ)
    → is_some s.adapter.namespaces ≡ true
    → find_by_key apps key ≡ some app
    → app.max_connections ≡ pos m
    → LocalAdapter.sockets_count s.adapter app.id ≤ m
    → (LocalAdapter.sockets_count (serve apps upgrades key protocol id r s).0.adapter app.id ≤ m)
unfolding serve validate_app validate_connection_limits LocalAdapter.sockets_count
serve_bounded apps upgrades key protocol id r s app m ready e lim le =
    let before = LocalAdapter.sockets s.adapter app.id in
    elim (Option-cases (get before id)) [
      | inl f ↦ ground (arith, e, lim, le, f, admit_lem app id r s ready, length-put before id r f)
      | inr (w, f) ↦ ground (arith, e, lim, le, f, admit_lem app id r s ready)
    ]
