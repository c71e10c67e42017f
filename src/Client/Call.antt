-- ===== src/Client/Call.antt =====
-- `call` and the commands of the object that `connectChat` returns (priv/ui/js/client.js).
use wiregrid.Base.{
  ℕ, suc, ◌+◌, String, true, none, some, [], ◌∷◌, ◌++◌, ltb, leb, if◌then◌else◌, ℕ_discrete, length,
}
use wiregrid.Base.JsMap.{set}
use wiregrid.Json.{Json, bool, num, str, obj, Fields, end, field, set_field}
use wiregrid.Client.Types.{
  Error, socket_closed, too_many_pending, request_too_large, backpressure, ok, err, Platform,
  queued, Item, Timer, Client,
}
use wiregrid.Client.Seq.{fresh_seq}
use wiregrid.Client.Core.{send_pending}

-- `{ ...fields, id, op }`.
unfoldable pub request : Fields → ℕ → String → Json
request fields id op = obj (set_field "op" (str op) (set_field "id" (num id) fields))

-- `return Promise.reject(error)`.
unfoldable pub refuse : {S : Type 0} → Error → Client S → Client S
refuse error c = record c { tickets = suc c.tickets; settled = (c.tickets, err error) ∷ c.settled }

-- The new promise's executor, up to the entry in `pending`.
unfoldable pub enqueue : {S : Type 0} → ℕ → String → String → ℕ → Client S → Client S
enqueue id op payload bytes c = record c {
  pending = set ℕ_discrete id item c.pending;
  queued_bytes = c.queued_bytes + bytes;
  timers = c.timers ++ timer ∷ [];
  tickets = suc c.tickets;
}
  where
    item : Item
    item = record { ticket = c.tickets; op = op; body = queued payload bytes }

    timer : Timer
    timer = record { handle = c.tickets; id = id; op = op; delay = c.request_timeout }

module _ (P : Platform) where
  open P use {Socket}

  -- The size checks, then the promise.
  unfoldable pub admit : ℕ → String → String → Client Socket → Client Socket
  unfolding refuse
  admit id op payload c =
      let bytes = P.byte_length payload in
      if ltb c.max_buffered_bytes bytes
      then refuse request_too_large c
      else if ltb c.max_buffered_bytes (c.queued_bytes + P.buffered_amount c.socket + bytes)
      then refuse backpressure c
      else if c.initialized
      then send_pending P id (enqueue id op payload bytes c)
      else enqueue id op payload bytes c

  unfoldable pub call_as : ℕ → String → Fields → Client Socket → Client Socket
  unfolding refuse
  call_as id op fields c = elim (P.stringify (request fields id op)) [
    | err error ↦ refuse error c
    | ok payload ↦ admit id op payload c
  ]

  -- The promise that it returns is number `c.tickets`. With one round more than there are pending
  -- requests, the search for a free number ends.
  unfoldable pub call : String → Fields → Client Socket → Client Socket
  unfolding refuse
  call op fields c =
      if c.closed
      then refuse socket_closed c
      else if leb c.max_pending (length c.pending)
      then refuse too_many_pending c
      else elim (fresh_seq (suc (length c.pending)) c.seq c.pending) [
        | none ↦ c
        | some id ↦ call_as id op fields (record c { seq = id })
      ]

-- The commands, with their defaults filled in by the caller: a missing `extra` or `options` is no
-- fields, a missing cursor null, a missing limit 50, and a missing nonce the clock.
pub data Command : Type 0 where
  subscribe unsubscribe : Json → Command
  say : Json → Json → Fields → Command
  publish : Json → Json → Fields → Command
  history : Json → Json → Json → Command
  ack presence join_room leave_room ping : Json → Command

unfoldable pub command_op : Command → String
command_op (subscribe topic) = "subscribe"
command_op (unsubscribe topic) = "unsubscribe"
command_op (say topic body extra) = "publish"
command_op (publish topic event options) = "publish"
command_op (history topic cursor limit) = "history"
command_op (ack delivery_id) = "ack"
command_op (presence status) = "presence"
command_op (join_room room) = "join_room"
command_op (leave_room room) = "leave_room"
command_op (ping nonce) = "ping"

unfoldable pub command_fields : Command → Fields
command_fields (subscribe topic) = field "topic" topic end
command_fields (unsubscribe topic) = field "topic" topic end
command_fields (say topic body extra) = field "topic" topic (
    field "event" (obj (set_field "body" body (set_field "type" (str "message") extra)))
      (field "class" (str "durable") (field "persist" (bool true) end)))
command_fields (publish topic event options) =
    set_field "event" event (set_field "topic" topic options)
command_fields (history topic cursor limit) =
    field "topic" topic (field "cursor" cursor (field "limit" limit end))
command_fields (ack delivery_id) = field "delivery_id" delivery_id end
command_fields (presence status) = field "status" status end
command_fields (join_room room) = field "room" room end
command_fields (leave_room room) = field "room" room end
command_fields (ping nonce) = field "nonce" nonce end

unfoldable pub invoke : (P : Platform) → Command → Client P.Socket → Client P.Socket
invoke P command c = call P (command_op command) (command_fields command) c
