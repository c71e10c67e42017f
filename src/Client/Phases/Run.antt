-- ===== src/Client/Phases/Run.antt =====
-- Every step keeps the client in one of its phases, and its books (priv/ui/js/client.js).
use wiregrid.Base.{
  ℕ, ◌≡◌, refl, sym, subst, false, Option, none, some, List, [], ◌∷◌, arith, Option-cases, inl, inr,
  if_either, Bool,
}
use wiregrid.Client.Types.{
  ok, err, Platform, Client, connection_timed_out, socket_failed, socket_closed, Timer, on_close,
  Limits, request_timed_out,
}
use wiregrid.Client.Options.{Settings, read_limits, start, connect}
use wiregrid.Client.OptionsChecked.{ok_of_bind, ok_inj}
use wiregrid.Client.Core.{settle, debug, fail, clear}
use wiregrid.Client.Call.{command_op, command_fields, invoke}
use wiregrid.Client.Steps.{
  Event, opened, errored, disconnected, received, connect_deadline, request_deadline,
  socket_changed, called, closing, find_timer, on_connect_deadline, on_request_deadline,
  on_disconnect, step, run,
}
use wiregrid.Client.Frames.{sends, report-OnlyLogs}
use wiregrid.Client.Books.{HasBooks}
use wiregrid.Client.Phases.{HasPhases, OnlyLogs-HasPhases, settle-HasPhases}
use wiregrid.Client.Phases.Closing.{finish-ends, finish-HasPhases, fail-HasPhases, close-HasPhases}
use wiregrid.Client.Books.Run.{connect-HasBooks, step-HasBooks}
use wiregrid.Client.Phases.Messages.{notify-HasPhases, debug-HasPhases, on_message-HasPhases}
use wiregrid.Client.Phases.Calls.{call-HasPhases}

module _ {S : Type 0} where
  pub start-HasPhases :
      (has_debug : Bool) (socket : S) (limits : Limits) → HasPhases (start has_debug socket limits)
  unfolding start sends
  start-HasPhases has_debug socket limits = record {
    settled_all = λ _. refl;
    sent_all = λ _. tt;
    gate = λ _. refl;
    undecided = refl;
    deadline = refl;
  }

  pub connect-HasPhases :
      (s : Settings) (socket : S) {c : Client S} → connect s socket ≡ ok c → HasPhases c
  unfolding connect
  connect-HasPhases s socket {c} h =
      let (limits, f, e) = ok_of_bind _ (read_limits s) h in
      rw (← ok_inj f) (start-HasPhases s.has_debug socket limits)

module _ (P : Platform) where
  open P use {Socket}

  on_connect_deadline-HasPhases :
      (c : Client Socket) → HasPhases c → HasPhases (on_connect_deadline P c)
  unfolding on_connect_deadline fail
  on_connect_deadline-HasPhases c v = elim (Option-cases c.connect_timer) [
    | inl e ↦ subst (λ (o : Option ℕ). HasPhases (fired o)) (sym e) v
    | inr (delay, e) ↦
        subst (λ (o : Option ℕ). HasPhases (fired o)) (sym e) (ended (ground (arith, v.deadline)))
  ]
    where
      fired : Option ℕ → Client Socket
      fired o = elim o [
        | none ↦ c
        | some delay ↦ fail P connection_timed_out (record c { connect_timer = none })
      ]

      ended :
          c.closed ≡ false
          → HasPhases (fail P connection_timed_out (record c { connect_timer = none }))
      ended o =
          if_either HasPhases c.closed (λ e. cc)
            (λ e.
              OnlyLogs-HasPhases _ _ (report-OnlyLogs connection_timed_out _)
                (finish-ends P connection_timed_out _ o v.gate))

  on_request_deadline-HasPhases :
      (handle : ℕ) (c : Client Socket) → HasPhases c → HasPhases (on_request_deadline P handle c)
  unfolding on_request_deadline
  on_request_deadline-HasPhases handle c v = fired (find_timer handle c.timers)
    where
      fired :
          (o : Option Timer)
          → HasPhases (elim o [
            | none ↦ c
            | some t ↦
                debug P "timeout" (some t.op) (
                  settle t.id (err request_timed_out) (record c { timers = clear handle c.timers }))
          ])
      fired none = v
      fired (some t) = debug-HasPhases P "timeout" (some t.op) _ (settle-HasPhases t.id _ _ v)

  pub step-HasPhases :
      (e : Event Socket) (c : Client Socket) → HasBooks c → HasPhases c → HasPhases (step P e c)
  unfolding step on_disconnect invoke
  step-HasPhases opened c b v = debug-HasPhases P "open" none c v
  step-HasPhases errored c b v = fail-HasPhases P socket_failed c v
  step-HasPhases disconnected c b v =
      notify-HasPhases P on_close _ (finish-HasPhases P socket_closed c v)
  step-HasPhases (received frame) c b v = on_message-HasPhases P frame c b v
  step-HasPhases connect_deadline c b v = on_connect_deadline-HasPhases c v
  step-HasPhases (request_deadline handle) c b v = on_request_deadline-HasPhases handle c v
  step-HasPhases (socket_changed socket) c b v = v
  step-HasPhases (called command) c b v =
      call-HasPhases P (command_op command) (command_fields command) c b v
  step-HasPhases closing c b v = close-HasPhases P c v

  run-HasPhases :
      (es : List (Event Socket)) (c : Client Socket)
      → HasBooks c
      → HasPhases c
      → HasBooks (run P es c) × HasPhases (run P es c)
  unfolding run
  run-HasPhases [] c b v = (b, v)
  run-HasPhases (e ∷ es) c b v = run-HasPhases es _ (step-HasBooks P e c b) (step-HasPhases e c b v)

-- Every client that `connectChat` makes keeps its books through every run: its request numbers are
-- distinct and in range, at most `maxPending` requests are pending, the count of queued bytes is
-- exact and within `maxBufferedBytes`, the timers that run are those of the pending requests, and
-- each promise that a call returned is pending or settled exactly once.
pub run-connect-HasBooks :
    (P : Platform) (s : Settings) (socket : P.Socket) (es : List (Event P.Socket))
    {c : Client P.Socket}
    → connect s socket ≡ ok c
    → HasBooks (run P es c)
run-connect-HasBooks P s socket es {c} h =
    (run-HasPhases P es c (connect-HasBooks s socket h) (connect-HasPhases s socket h)).0

-- Every client that `connectChat` makes stays in a phase through every run: before the ready message
-- it sends no request, after it no request waits to be sent, once closed it has nothing pending, and
-- its promise `ready` is undecided and its connect timer runs exactly while it is neither ready nor
-- closed.
pub run-connect-HasPhases :
    (P : Platform) (s : Settings) (socket : P.Socket) (es : List (Event P.Socket))
    {c : Client P.Socket}
    → connect s socket ≡ ok c
    → HasPhases (run P es c)
run-connect-HasPhases P s socket es {c} h =
    (run-HasPhases P es c (connect-HasBooks s socket h) (connect-HasPhases s socket h)).1
