-- ===== src/Client/Books/Run.antt =====
-- The books are kept by every step, and so by every run of the client (priv/ui/js/client.js).
use wiregrid.Base.{
  ℕ, ◌<◌, ◌≡◌, refl, Option, none, some, List, [], ◌∷◌, arith, Option-cases, inl, inr, Bool,
}
use wiregrid.Client.Types.{
  ok, Platform, Client, connection_timed_out, socket_failed, socket_closed, on_close, Limits,
}
use wiregrid.Client.Options.{Settings, read_limits, start, connect}
use wiregrid.Client.Seq.{max_seq}
use wiregrid.Client.Core.{fail}
use wiregrid.Client.Call.{command_op, command_fields, invoke}
use wiregrid.Client.Steps.{
  Event, opened, errored, disconnected, received, connect_deadline, request_deadline,
  socket_changed, called, closing, find_timer, on_connect_deadline, on_request_deadline,
  on_disconnect, step, run,
}
use wiregrid.Client.Books.{HasBooks, settle-HasBooks}
use wiregrid.Client.Books.Kept.{finish-HasBooks, fail-HasBooks, close-HasBooks}
use wiregrid.Client.Books.Messages.{notify-HasBooks, debug-HasBooks, on_message-HasBooks}
use wiregrid.Client.OptionsChecked.{ok_of_bind, ok_inj, read_limits-range}
use wiregrid.Client.Deadlines.{settle_fired, find_timer-get}
use wiregrid.Client.Books.Calls.{call-HasBooks}

module _ {S : Type 0} where
  pub start-HasBooks :
      (has_debug : Bool) (socket : S) (limits : Limits)
      → limits.max_pending < max_seq
      → HasBooks (start has_debug socket limits)
  unfolding start
  start-HasBooks has_debug socket limits h = record {
    distinct = tt;
    range = tt;
    seq_bound = omega arith;
    limit = h;
    room = omega arith;
    bytes = refl;
    budget = omega arith;
    timed = refl;
    promised = λ t. ground arith;
  }

  pub connect-HasBooks :
      (s : Settings) (socket : S) {c : Client S} → connect s socket ≡ ok c → HasBooks c
  unfolding connect read_limits
  connect-HasBooks s socket {c} h =
      let (limits, f, e) = ok_of_bind _ (read_limits s) h in
      rw (← ok_inj f)
        (start-HasBooks s.has_debug socket limits (omega (arith, read_limits-range s e)))

module _ (P : Platform) where
  open P use {Socket}

  on_connect_deadline-HasBooks :
      (c : Client Socket) → HasBooks c → HasBooks (on_connect_deadline P c)
  unfolding on_connect_deadline
  on_connect_deadline-HasBooks c v = fired c.connect_timer
    where
      fired :
          (o : Option ℕ)
          → HasBooks (elim o [
            | none ↦ c
            | some delay ↦ fail P connection_timed_out (record c { connect_timer = none })
          ])
      fired none = v
      fired (some delay) = fail-HasBooks P connection_timed_out _ v

  on_request_deadline-HasBooks :
      (handle : ℕ) (c : Client Socket) → HasBooks c → HasBooks (on_request_deadline P handle c)
  unfolding on_request_deadline
  on_request_deadline-HasBooks handle c v = elim (Option-cases (find_timer handle c.timers)) [
    | inl e ↦ rw (e, on_request_deadline) v
    | inr (t, e) ↦
        let (item, there, same, _) = find_timer-get handle c t v e in
        rw (e, on_request_deadline, ← same, settle_fired t.id item _ c there)
          (debug-HasBooks P "timeout" (some t.op) _ (settle-HasBooks t.id _ c v))
  ]

  pub step-HasBooks : (e : Event Socket) (c : Client Socket) → HasBooks c → HasBooks (step P e c)
  unfolding step on_disconnect invoke
  step-HasBooks opened c v = debug-HasBooks P "open" none c v
  step-HasBooks errored c v = fail-HasBooks P socket_failed c v
  step-HasBooks disconnected c v =
      notify-HasBooks P on_close _ (finish-HasBooks P socket_closed c v)
  step-HasBooks (received frame) c v = on_message-HasBooks P frame c v
  step-HasBooks connect_deadline c v = on_connect_deadline-HasBooks c v
  step-HasBooks (request_deadline handle) c v = on_request_deadline-HasBooks handle c v
  step-HasBooks (socket_changed socket) c v = v
  step-HasBooks (called command) c v =
      call-HasBooks P (command_op command) (command_fields command) c v
  step-HasBooks closing c v = close-HasBooks P c v

  pub run-HasBooks :
      (es : List (Event Socket)) (c : Client Socket) → HasBooks c → HasBooks (run P es c)
  unfolding run
  run-HasBooks [] c v = v
  run-HasBooks (e ∷ es) c v = run-HasBooks es _ (step-HasBooks e c v)
