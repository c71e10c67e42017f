-- ===== src/Client/Steps.antt =====
-- The events that drive a client, in any order: the socket's, the timers', and the application's.
use wiregrid.Base.{ℕ, Option, none, some, List, [], ◌∷◌, ite, ℕ_discrete}
use wiregrid.Client.Types.{
  connection_timed_out, socket_failed, socket_closed, request_timed_out, err, Frame, on_close,
  Platform, Timer, Client,
}
use wiregrid.Client.Core.{clear, settle, notify, debug, finish, fail, close}
use wiregrid.Client.Message.{on_message}
use wiregrid.Client.Call.{Command, invoke}

-- `socket_changed` is the browser's: the socket opens, closes or drains its buffer.
pub data Event (S : Type 0) : Type 0 where
  opened errored disconnected : Event S
  received : Frame → Event S
  connect_deadline : Event S
  request_deadline : ℕ → Event S
  socket_changed : S → Event S
  called : Command → Event S
  closing : Event S

unfoldable pub find_timer : ℕ → List Timer → Option Timer
find_timer handle [] = none
find_timer handle (t ∷ ts) = ite (ℕ_discrete t.handle handle) (some t) (find_timer handle ts)

module _ (P : Platform) where
  open P use {Socket}

  -- A timer that was cleared does not fire.
  unfoldable pub on_connect_deadline : Client Socket → Client Socket
  on_connect_deadline c = elim c.connect_timer [
    | none ↦ c
    | some delay ↦ fail P connection_timed_out (record c { connect_timer = none })
  ]

  unfoldable pub on_request_deadline : ℕ → Client Socket → Client Socket
  on_request_deadline handle c = elim (find_timer handle c.timers) [
    | none ↦ c
    | some t ↦
        debug P "timeout" (some t.op)
          (settle t.id (err request_timed_out) (record c { timers = clear handle c.timers }))
  ]

  unfoldable pub on_disconnect : Client Socket → Client Socket
  on_disconnect c = notify P on_close (finish P socket_closed c)

  unfoldable pub step : Event Socket → Client Socket → Client Socket
  step opened c = debug P "open" none c
  step errored c = fail P socket_failed c
  step disconnected c = on_disconnect c
  step (received frame) c = on_message P frame c
  step connect_deadline c = on_connect_deadline c
  step (request_deadline handle) c = on_request_deadline handle c
  step (socket_changed socket) c = record c { socket = socket }
  step (called command) c = invoke P command c
  step closing c = close P c

  unfoldable pub run : List (Event Socket) → Client Socket → Client Socket
  run [] c = c
  run (e ∷ es) c = run es (step e c)
