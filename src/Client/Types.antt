-- ===== src/Client/Types.antt =====
-- The state that `connectChat` keeps in its closure (priv/ui/js/client.js), and what it takes from
-- the browser.
use wiregrid.Base.{ℕ, String, Bool, Option, List}
use wiregrid.Base.JsMap.{JsMap}
use wiregrid.Json.{Json}

-- What a rejected promise or `onError` receives. `thrown` is an exception of the browser or of a
-- handler, `response` a server message that is itself the reason.
pub data Error : Type 0 where
  range_error : String → Error
  connection_timed_out socket_failed socket_closed handshake_rejected : Error
  invalid_server_message too_many_pending request_too_large backpressure : Error
  request_timed_out : Error
  thrown : String → Error
  response : Json → Error

pub data Result {ℓ} (A : Type ℓ) : Type ℓ where
  ok : A → Result A
  err : Error → Result A

-- The data of a message event: a text, or the bytes of an array buffer.
pub data Frame : Type 0 where
  text : String → Frame
  binary : List ℕ → Frame

-- A call of one of the application's handlers: its name and its argument. A debug event has its
-- name, the operation if there is one, and the number of pending requests.
pub data Notice : Type 0 where
  on_debug : String → Option String → ℕ → Notice
  on_ready on_event : Json → Notice
  on_close : Notice

-- What the browser and the application provide. `send` may throw; `react` is the error that a
-- handler throws or rejects with, if it does.
pub record Platform : Type 1 where
  pub Socket : Type 0
  pub is_open : Socket → Bool
  pub buffered_amount : Socket → ℕ
  pub send : Socket → String → Result Socket
  pub close : Socket → Socket
  pub stringify : Json → Result String
  pub parse : String → Result Json
  pub decode : List ℕ → String
  pub byte_length : String → ℕ
  pub react : Notice → Option Error

-- What is left to send of a request: the payload and its size, which are dropped when it is sent.
pub data Body : Type 0 where
  queued : String → ℕ → Body
  sent : Body

-- An entry of `pending`. The ticket numbers the request's promise, and its timer too.
pub record Item : Type 0 where
  pub ticket : ℕ
  pub op : String
  pub body : Body

-- A timer that has neither fired nor been cleared, with what its callback closes over.
pub record Timer : Type 0 where
  pub handle : ℕ
  pub id : ℕ
  pub op : String
  pub delay : ℕ

pub record Limits : Type 0 where
  pub max_pending : ℕ
  pub request_timeout : ℕ
  pub connect_timeout : ℕ
  pub max_buffered_bytes : ℕ

pub data Ready : Type 0 where
  waiting : Ready
  resolved : Json → Ready
  rejected : Error → Ready

pub data Effect : Type 0 where
  notified : Notice → Effect
  reported : Error → Effect
  request_sent : String → Effect

-- `tickets` counts the promises that calls have returned, and `settled` has those that are settled,
-- the newest first. `log` has the effects, the newest first.
pub record Client (S : Type 0) : Type 0 where
  pub limits : Limits
  pub open limits use *
  pub has_debug : Bool
  pub socket : S
  pub pending : JsMap ℕ Item
  pub queued_bytes : ℕ
  pub seq : ℕ
  pub closed : Bool
  pub initialized : Bool
  pub ready : Ready
  pub connect_timer : Option ℕ
  pub timers : List Timer
  pub tickets : ℕ
  pub settled : List (ℕ × Result Json)
  pub log : List Effect
