-- ===== src/Serve.antt =====
-- internal/serve.go: how a connection comes to be. The upgrade to a WebSocket is the libraries': a
-- parameter says whether it succeeds. The new object's pointer and the random socket id are parameters
-- too. The metrics are left out.
pub mod Admission
use pusher.Prelude.{
  ℕ, ◌+◌, Bool, true, false, ◌&&◌, Option, none, some, List, [], ◌∷◌, if◌then◌else◌, ltb, eqb,
  is_some, Text, ℤ, pos, negsuc, exceeds,
}
use pusher.App.{App}
use pusher.LocalAdapter
use pusher.LocalAdapter.{Adapter}
use pusher.Registry.{Registry, find_by_key}
use pusher.Session.Messages.{watch}
use pusher.Session.World.{
  World, ErrorCode, over_quota, app_not_exist, app_disabled, unsupported_protocol_version, write,
  send, established,
}
use pusher.Socket.{WebSocket, Ref, absent, update}

-- constants.SupportedProtocolVersions
abbrev pub supported_protocol : ℤ → Bool
supported_protocol (pos n) = eqb n 7
supported_protocol (negsuc n) = false

pub data Validated : Type 0 where
  valid : App → Validated
  invalid : ErrorCode → Validated

unfoldable pub validate_app : Registry → Text → Validated
validate_app apps key = elim (find_by_key apps key) [
  | none ↦ invalid app_not_exist
  | some app ↦ if app.enabled then valid app else invalid app_disabled
]

-- app.MaxConnections > -1
abbrev pub is_limit : ℤ → Bool
is_limit (pos n) = true
is_limit (negsuc n) = false

-- `none` is the nil error
unfoldable pub validate_connection_limits : Adapter → App → Option ErrorCode
validate_connection_limits l app =
    let count = LocalAdapter.sockets_count l app.id in
    if is_limit app.max_connections && exceeds (count + 1) app.max_connections
    then some over_quota
    else none

-- createWebSocket with its arguments there
unfoldable pub create_websocket : Text → App → WebSocket
create_websocket id app = record {
  id = id;
  app = some app;
  subscribed_channels = some [];
  presence_data = some [];
  connected = true;
  closed = false;
  attached = true;
  user_id = [];
  user_auth_channel = absent;
  user_has_authorized = false;
}

-- initializeWebSocketConnection; Listen is the handlers' caller
unfoldable pub initialize_connection : App → Text → Ref → World → World
initialize_connection app id r s =
    let s' = send r (established id app.activity_timeout) s in
    if app.require_channel_authorization then watch r s' else s'

-- how serveWs ends: the status 503, no upgrade, an error for the client and a closed connection, or a
-- connection
pub data Outcome : Type 0 where
  unavailable upgrade_failed connected : Outcome
  turned_away : ErrorCode → Outcome

-- addSocketToAdapter and what follows it
unfoldable pub admit : App → Text → Ref → World → World × Outcome
admit app id r s =
    let h = update s.heap r (create_websocket id app) in
    let (l, e) = LocalAdapter.add_socket h app.id r s.adapter in
    let s' = record s { heap = h; adapter = l } in
    if is_some e
    then (s', turned_away over_quota)
    else (initialize_connection app id r s', connected)

-- serveWs
unfoldable pub serve : Registry → Bool → Text → ℤ → Text → Ref → World → World × Outcome
serve apps upgrades key protocol id r s =
    if s.closing
    then (s, unavailable)
    else if upgrades
    then if supported_protocol protocol
      then elim (validate_app apps key) [
        | invalid e ↦ (s, turned_away e)
        | valid app ↦ elim (validate_connection_limits s.adapter app) [
          | some e ↦ (s, turned_away e)
          | none ↦ admit app id r s
        ]
      ]
      else (s, turned_away unsupported_protocol_version)
    else (s, upgrade_failed)
