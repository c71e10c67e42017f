-- ===== src/Client/Core.antt =====
-- The closure's inner functions (priv/ui/js/client.js): callbacks, `settle`, `finish`, `fail` and
-- `sendPending`. The handlers are taken not to call the client back before they return.
use wiregrid.Base.{
  ℕ, ◌+◌, ◌-◌, String, true, ite, Option, none, some, List, [], ◌∷◌, not, ◌||◌, ltb, if◌then◌else◌,
  ℕ_discrete, length,
}
use wiregrid.Base.JsMap.{JsMap, get, delete, keys}
use wiregrid.Json.{Json}
use wiregrid.Client.Types.{
  Error, socket_closed, backpressure, Result, ok, err, Notice, on_debug, Platform, Body, queued,
  sent, Item, Timer, Ready, waiting, rejected, notified, reported, request_sent, Client,
}

-- `clearTimeout`.
unfoldable pub clear : ℕ → List Timer → List Timer
clear handle [] = []
clear handle (t ∷ ts) = ite (ℕ_discrete t.handle handle) (clear handle ts) (t ∷ clear handle ts)

-- The in-place change of a pending entry when it is sent.
unfoldable pub mark_sent : ℕ → JsMap ℕ Item → JsMap ℕ Item
mark_sent id [] = []
mark_sent id ((k, item) ∷ l) =
    ite (ℕ_discrete k id) ((k, record item { body = sent }) ∷ mark_sent id l)
      ((k, item) ∷ mark_sent id l)

abbrev pub body_bytes : Body → ℕ
body_bytes (queued payload bytes) = bytes
body_bytes sent = 0

-- A promise takes the first settlement only.
unfoldable pub settle_ready : Ready → Ready → Ready
settle_ready waiting outcome = outcome
settle_ready r outcome = r

module _ {S : Type 0} where
  unfoldable pub report : Error → Client S → Client S
  report error c = record c { log = reported error ∷ c.log }

  unfoldable pub settle : ℕ → Result Json → Client S → Client S
  settle id outcome c = elim (get ℕ_discrete id c.pending) [
    | none ↦ c
    | some item ↦ record c {
      pending = delete ℕ_discrete id c.pending;
      queued_bytes = c.queued_bytes - body_bytes item.body;
      timers = clear item.ticket c.timers;
      settled = (item.ticket, outcome) ∷ c.settled;
    }
  ]

  -- `for (const id of pending.keys()) settle(id, error)`: each round deletes no key but its own, so
  -- the keys at the start are those visited.
  unfoldable pub settle_all : List ℕ → Error → Client S → Client S
  settle_all [] error c = c
  settle_all (id ∷ ids) error c = settle_all ids error (settle id (err error) c)

module _ (P : Platform) where
  open P use {Socket}

  unfoldable pub notify : Notice → Client Socket → Client Socket
  unfolding report
  notify n c = elim (P.react n) [
    | none ↦ record c { log = notified n ∷ c.log }
    | some error ↦ report error (record c { log = notified n ∷ c.log })
  ]

  unfoldable pub debug : String → Option String → Client Socket → Client Socket
  unfolding notify
  debug event op c = if c.has_debug then notify (on_debug event op (length c.pending)) c else c

  unfoldable pub finish : Error → Client Socket → Client Socket
  finish error c =
      if c.closed
      then c
      else debug "closed" none (
          settle_all (keys c.pending) error (record c {
            closed = true;
            connect_timer = none;
            ready = settle_ready c.ready (rejected error);
          }))

  close_socket : Client Socket → Client Socket
  close_socket c = record c { socket = P.close c.socket }

  unfoldable pub fail : Error → Client Socket → Client Socket
  unfolding close_socket
  fail error c = if c.closed then c else close_socket (report error (finish error c))

  -- `close` of the object that `connectChat` returns.
  unfoldable pub close : Client Socket → Client Socket
  unfolding close_socket
  close c = close_socket (finish socket_closed c)

  -- The `try` block of `sendPending` from `socket.send` on.
  unfoldable pub transmit : ℕ → String → String → Client Socket → Client Socket
  transmit id op payload c = elim (P.send c.socket payload) [
    | err error ↦ settle id (err error) c
    | ok socket ↦
        debug "request" (some op) (record c { socket = socket; log = request_sent payload ∷ c.log })
  ]

  unfoldable pub send_body : ℕ → String → Body → Client Socket → Client Socket
  send_body id op sent c = c
  send_body id op (queued payload bytes) c =
      if c.closed || not (P.is_open c.socket)
      then settle id (err socket_closed) c
      else if ltb c.max_buffered_bytes (P.buffered_amount c.socket + bytes)
      then settle id (err backpressure) c
      else transmit id op payload
          (record c { pending = mark_sent id c.pending; queued_bytes = c.queued_bytes - bytes })

  unfoldable pub send_pending : ℕ → Client Socket → Client Socket
  send_pending id c = elim (get ℕ_discrete id c.pending) [
    | none ↦ c
    | some item ↦ send_body id item.op item.body c
  ]

  unfoldable pub send_all : List ℕ → Client Socket → Client Socket
  send_all [] c = c
  send_all (id ∷ ids) c = send_all ids (send_pending id c)
