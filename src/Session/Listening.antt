-- ===== src/Session/Listening.antt =====
-- The read loop of internal/websocket.go: Listen and handleReadMessageError. The frames that the client
-- sends, and the errors of reading them, are a list. Read deadlines and metrics are left out; a deadline
-- that passes is an error of reading.
use pusher.Prelude.{
  ℕ, Bool, ◌&&◌, ◌||◌, not, Option, none, some, List, [], ◌∷◌, if◌then◌else◌, ltb, leb, is_some,
  length, Text, ◌>>=◌,
}
use pusher.Session.Leaving.{close_connection}
use pusher.Session.Messages.{parse_incoming_payload}
use pusher.Session.World.{
  World, Act, ErrorCode, close_expected, abnormal_closure, send, error_frame, Codec,
}
use pusher.Socket.{Ref, WebSocket}

-- the errors that handleReadMessageError tells apart: io.EOF or net.ErrClosed, and all others
pub data ReadError : Type 0 where
  end_of_file other : ReadError

-- What NextFrame and ReadFull give: a frame with its payload; an error; or a header with this length
-- and then an error.
pub data Received : Type 0 where
  whole : Text → Received
  fails : ReadError → Received
  broken : ℕ → ReadError → Received

-- constants.MaxMessageSize
abbrev pub max_message_size : ℕ
max_message_size = 20480

-- whether Listen waits for the next frame or has returned
pub data Listener : Type 0 where
  reading returned : Listener

abbrev pub code_of : ReadError → ErrorCode
code_of end_of_file = close_expected
code_of other = abnormal_closure

-- handleReadMessageError; the server and the app are dereferenced for the metrics
unfoldable pub handle_read_message_error : ReadError → Ref → Act
handle_read_message_error e r s =
    if (s.heap r).attached && is_some (s.heap r).app then close_connection r (code_of e) s else none

-- the error that parseIncomingPayload returns is sent to the client; `explain` is its message
unfoldable pub report : (ErrorCode → Text) → Ref → Option ErrorCode → World → World
report explain r none s = s
report explain r (some e) s = send r (error_frame e (explain e)) s

-- the test at the head of the loop
abbrev pub is_over : WebSocket → Bool
is_over w = w.closed || not w.connected

module _ (codec : Codec) (explain : ErrorCode → Text) (r : Ref) where
  -- the rest of one round: a frame of up to two bytes is ignored, one that is too large ends the loop
  unfoldable pub round : Received → World → Option (World × Listener)
  round (fails e) s = do s' ← handle_read_message_error e r s; some (s', returned)
  round (broken n e) s =
      if ltb max_message_size n
      then some (s, returned)
      else do s' ← handle_read_message_error e r s; some (s', returned)
  round (whole msg) s =
      if ltb max_message_size (length msg)
      then some (s, returned)
      else if leb (length msg) 2
      then some (s, reading)
      else do (s', e) ← parse_incoming_payload codec msg r s; some (report explain r e s', reading)

  -- Listen, as long as there are frames; `none` is a panic
  unfoldable pub listen : List Received → World → Option (World × Listener)
  listen [] s = some (s, if is_over (s.heap r) then returned else reading)
  listen (x ∷ xs) s = if is_over (s.heap r) then some (s, returned) else do
    (s', l) ← round x s
    let later = listen xs s'
    elim l [ reading ↦ later | returned ↦ some (s', returned) ]
