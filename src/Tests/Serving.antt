-- ===== src/Tests/Serving.antt =====
-- New connections of an app with a limit of five.
use pusher.Prelude.{
  ◌≤◌, ◌≡◌, refl, ◌↔◌, true, false, none, some, [], ◌∷◌, arith, Text, codes, ◌==◌, get, put, pos,
}
use pusher.App.{App}
use pusher.LocalAdapter
use pusher.Namespace
use pusher.Registry.{Registry, init, add_apps, find_by_key}
use pusher.Serve.{
  serve, connected, validate_app, admit, create_websocket, supported_protocol,
  validate_connection_limits,
}
use pusher.Serve.Admission.{serve-connected_iff, serve_bounded}
use pusher.Tests.Data.{shop, world}

abbrev limited : App
limited = record shop { enabled = true; max_connections = pos 5 }

abbrev apps : Registry
apps = (init (limited ∷ [])).0

abbrev fresh : Text
fresh = codes "3.3"

serve-connected_iff_example :
    ((serve apps true limited.key (pos 7) fresh 2 world).1 ≡ connected) ↔ (
      (world.closing ≡ false)
      × (true ≡ true)
      × (supported_protocol (pos 7) ≡ true)
      × ((app : App) × (find_by_key apps limited.key ≡ some app)
          × (app.enabled ≡ true)
          × (validate_connection_limits world.adapter app ≡ none)
          × (get (LocalAdapter.sockets world.adapter app.id) fresh ≡ none)))
serve-connected_iff_example = serve-connected_iff apps true limited.key (pos 7) fresh 2 world refl

serve_bounded_example :
    LocalAdapter.sockets_count
      (serve apps true limited.key (pos 7) fresh 2 world).0.adapter
      limited.id
    ≤ 5
unfolding init find_by_key put ◌==◌ get LocalAdapter.sockets_count add_apps LocalAdapter.sockets
    Namespace.add_to_channel Namespace.add_socket Namespace.add_user
serve_bounded_example =
    serve_bounded apps true limited.key (pos 7) fresh 2 world limited 5 refl refl refl (omega arith)

-- the connection is made
let_in : (serve apps true limited.key (pos 7) fresh 2 world).1 ≡ connected
unfolding serve init find_by_key put ◌==◌ get validate_app add_apps validate_connection_limits
    LocalAdapter.sockets_count LocalAdapter.sockets Namespace.add_to_channel Namespace.add_socket
    Namespace.add_user admit LocalAdapter.add_socket create_websocket
let_in = refl
