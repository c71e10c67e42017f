-- ===== src/Client/Tests.antt =====
-- Runs of the client (priv/ui/js/client.js) on a small browser, and the theorems at such runs.
use text.Mathlib.Text.{◌==◌ as str_eq}
use wiregrid.Base.{
  ℕ, ◌+◌, ◌<◌, String, ◌≡◌, refl, ◌≢◌, inl, Bool, true, false, none, some, List, [], ◌∷◌, arith,
  if◌then◌else◌, String_discrete, ℕ_discrete, length, total,
}
use wiregrid.Base.JsMap.{get, set, delete}
use wiregrid.Json.{obj, num, str, bool, Fields, end, field, get_field, set_field}
use wiregrid.Client.Types.{
  thrown, request_timed_out, ok, err, Frame, binary, Platform, Item, Client, Body,
}
use wiregrid.Client.Options.{absent, number, Settings, positive, read_limits, start, connect}
use wiregrid.Client.Seq.{next_seq, fresh_seq}
use wiregrid.Client.Fresh.{fresh_seq-Found, Found}
use wiregrid.Client.Core.{
  clear, mark_sent, settle_ready, settle, settle_all, notify, debug, finish, fail, close, transmit,
  send_body, send_pending, send_all,
}
use wiregrid.Client.Message.{on_ready_message, on_reply, dispatch, on_value, frame_text, on_message}
use wiregrid.Client.Call.{
  request, refuse, enqueue, admit, call_as, call, subscribe, ping, command_op, command_fields,
  invoke,
}
use wiregrid.Client.Steps.{
  Event, opened, received, request_deadline, called, closing, find_timer, on_connect_deadline,
  on_request_deadline, on_disconnect, step, run,
}
use wiregrid.Client.Frames.{sends}
use wiregrid.Client.Books.{HasBooks, settles}
use wiregrid.Client.Phases.{HasPhases}
use wiregrid.Client.Phases.Run.{run-connect-HasBooks, run-connect-HasPhases}
use wiregrid.Client.Replies.{Settled, answer, answered-Settled, timed_out-Settled}
use wiregrid.Client.Closed.{Ended, run-Ended_of_closed, close_settles}
use wiregrid.Client.Requests.{Outcome, request_routes, invoke-Outcome}

program : Unit {0}
unfolding positive read_limits start connect next_seq fresh_seq clear mark_sent settle_ready settle
    settle_all notify debug finish fail close transmit send_body send_pending send_all
    on_ready_message on_reply dispatch on_value frame_text on_message refuse enqueue admit call_as
    call command_op command_fields invoke find_timer on_connect_deadline on_request_deadline
    on_disconnect step run sends get set delete get_field set_field String_discrete ℕ_discrete
    request
program = tt

record Wire : Type 0 where
  is_open : Bool
  buffered : ℕ

abbrev pong : Fields
pong = field "type" (str "response") (field "id" (num 1) (field "ok" (bool true) end))

-- Every payload is one text of 20 bytes, and the server says two things.
abbrev browser : Platform
browser = record {
  Socket = Wire;
  is_open = λ w. w.is_open;
  buffered_amount = λ w. w.buffered;
  send = λ w payload.
      if w.is_open
      then ok (record w { buffered = w.buffered + 20 })
      else err (thrown "InvalidStateError");
  close = λ w. record w { is_open = false };
  stringify = λ j. ok "request";
  parse = λ s.
      if str_eq s "ready"
      then ok (obj (field "type" (str "ready") end))
      else if str_eq s "pong"
      then ok (obj pong)
      else err (thrown "SyntaxError");
  decode = λ bytes. "ready";
  byte_length = λ s. 20;
  react = λ n. none;
}

abbrev defaults : Settings
defaults = record {
  max_pending = absent;
  request_timeout_ms = absent;
  connect_timeout_ms = absent;
  max_buffered_bytes = number 300;
  has_debug = true;
}

abbrev wire : Wire
wire = record { is_open = true; buffered = 0 }

abbrev fresh_client : Client Wire
fresh_client = start true wire (record {
  max_pending = 256;
  request_timeout = 10000;
  connect_timeout = 10000;
  max_buffered_bytes = 300;
})

connected : connect defaults wire ≡ ok fresh_client
unfolding connect read_limits positive
connected = refl

-- A request before the ready message, then that message.
abbrev history : List (Event Wire)
history =
    opened ∷ called (subscribe (str "general")) ∷ received (binary []) ∷ called (ping (num 7)) ∷ []

history_sent :
    ((run browser history fresh_client).initialized ≡ true)
    × (sends (run browser history fresh_client).log ≡ "request" ∷ "request" ∷ [])
    × (length (run browser history fresh_client).pending ≡ 2)
unfolding program
history_sent = (refl, refl, refl)

run-connect-HasBooks_example : HasBooks (run browser history fresh_client)
run-connect-HasBooks_example = run-connect-HasBooks browser defaults wire history connected

run-connect-HasPhases_example : HasPhases (run browser history fresh_client)
run-connect-HasPhases_example = run-connect-HasPhases browser defaults wire history connected

fresh_seq-Found_example :
    Found {V = ℕ} 4294967294 3
      ((4294967295, 5) ∷ (1, 6) ∷ [])
      (fresh_seq {V = ℕ} 3 4294967294 ((4294967295, 5) ∷ (1, 6) ∷ []))
fresh_seq-Found_example =
    fresh_seq-Found {V = ℕ} 4294967294 ((4294967295, 5) ∷ (1, 6) ∷ []) (omega arith) (omega arith)

abbrev subscribed : Item
subscribed = record { ticket = 0; op = "subscribe"; body = Body.sent }

pending_one : get ℕ_discrete 1 (run browser history fresh_client).pending ≡ some subscribed
unfolding program
pending_one = refl

answered-Settled_example :
    Settled 1 subscribed
      (answer pong)
      (run browser history fresh_client)
      (step browser (received (Frame.text "pong")) (run browser history fresh_client))
unfolding program
answered-Settled_example =
    answered-Settled browser (Frame.text "pong") pong 1 subscribed
      (run browser history fresh_client) refl refl (inl refl) refl pending_one

timed_out-Settled_example :
    Settled 1 subscribed
      (err request_timed_out)
      (run browser history fresh_client)
      (step browser (request_deadline 0) (run browser history fresh_client))
timed_out-Settled_example =
    timed_out-Settled browser 1 0 subscribed (run browser history fresh_client)
      run-connect-HasBooks_example pending_one refl

abbrev ending : List (Event Wire)
ending = called (subscribe (str "general")) ∷ closing ∷ []

ending_closed : (run browser ending fresh_client).closed ≡ true
unfolding program
ending_closed = refl

run-Ended_of_closed_example :
    Ended
      (sends (run browser ending fresh_client).log)
      (run browser history (run browser ending fresh_client))
run-Ended_of_closed_example =
    run-Ended_of_closed browser defaults wire ending history connected ending_closed

two_tickets : 1 < (run browser history fresh_client).tickets
unfolding program
two_tickets = omega arith

close_settles_example :
    ((close browser (run browser history fresh_client)).closed ≡ true)
    × (total (settles 1) (close browser (run browser history fresh_client)).settled ≡ 1)
close_settles_example = close_settles browser defaults wire history 1 connected two_tickets

request_routes_example :
    (o : Fields) × (request (field "op" (str "unsubscribe") (field "id" (num 99) end)) 3 "publish"
      ≡ obj o)
    × (get_field "id" o ≡ some (num 3))
    × (get_field "op" o ≡ some (str "publish"))
    × ((name : String)
        → name ≢ "id"
        → name ≢ "op"
        → get_field name o
          ≡ get_field name (field "op" (str "unsubscribe") (field "id" (num 99) end)))
request_routes_example =
    request_routes (field "op" (str "unsubscribe") (field "id" (num 99) end)) 3 "publish"

invoke-Outcome_example :
    Outcome browser "ping"
      (field "nonce" (num 8) end)
      (run browser history fresh_client)
      (invoke browser (ping (num 8)) (run browser history fresh_client))
unfolding command_op command_fields
invoke-Outcome_example = invoke-Outcome browser defaults wire history (ping (num 8)) connected
