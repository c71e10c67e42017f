-- ===== src/Client/Closed.antt =====
-- The end of a client (priv/ui/js/client.js), and the promise `ready`.
use wiregrid.Base.{
  ℕ, ◌<◌, String, ◌≡◌, refl, sym, ap, subst, ◌∙◌, Bool, true, Option, none, some, List, [], ◌∷◌,
  arith, if_either, total, map,
}
use wiregrid.Client.Types.{
  Error, socket_closed, socket_failed, connection_timed_out, ok, Platform, Timer, Client, on_close,
}
use wiregrid.Client.Options.{Settings, connect}
use wiregrid.Client.Core.{finish, fail, close}
use wiregrid.Client.Message.{on_message}
use wiregrid.Client.Call.{refuse, call, invoke}
use wiregrid.Client.Steps.{
  Event, opened, errored, disconnected, received, connect_deadline, request_deadline,
  socket_changed, called, closing, find_timer, on_connect_deadline, on_request_deadline,
  on_disconnect, step, run,
}
use wiregrid.Client.Entries.{Pending, holds}
use wiregrid.Client.Frames.{sends, OnlyLogs, notify-OnlyLogs, debug-OnlyLogs}
use wiregrid.Client.Books.{HasBooks, settles}
use wiregrid.Client.Books.Kept.{close-HasBooks}
use wiregrid.Client.Phases.{HasPhases}
use wiregrid.Client.Phases.Closing.{finish_closed, close-HasPhases, settle_all-keys, ended}
use wiregrid.Client.Phases.Run.{run-connect-HasBooks, run-connect-HasPhases}

-- A client that is closed, has nothing pending and no timer, and has sent these payloads.
pub record Over (payloads : List String) (closed : Bool) (pending : Pending) (timers : List Timer)
    (sent : List String) : Type 0 where
  pub is_closed : closed ≡ true
  pub nothing : pending ≡ []
  pub no_timer : timers ≡ []
  pub sent_all : sent ≡ payloads

abbrev pub Ended : {S : Type 0} → List String → Client S → Type 0
Ended payloads c = Over payloads c.closed c.pending c.timers (sends c.log)

OnlyLogs-Ended :
    {S : Type 0} (payloads : List String) (c d : Client S)
    → OnlyLogs c d
    → Ended payloads c
    → Ended payloads d
OnlyLogs-Ended payloads c d (log, e, same) v = rw (e, same) v

-- Closed, with this many promises returned.
abbrev ClosedAt : {S : Type 0} → ℕ → Client S → Type 0
ClosedAt n c = (c.closed ≡ true) × (c.tickets ≡ n)

OnlyLogs-ClosedAt :
    {S : Type 0} (n : ℕ) (c d : Client S) → OnlyLogs c d → ClosedAt n c → ClosedAt n d
OnlyLogs-ClosedAt n c d (log, e, _) v = rw e v

module _ (P : Platform) where
  open P use {Socket}

  finish-Ended :
      (payloads : List String) (error : Error) (c : Client Socket)
      → Ended payloads c
      → Ended payloads (finish P error c)
  finish-Ended payloads error c v =
      subst (λ d. Ended payloads d) (sym (finish_closed P error c v.is_closed)) v

  fail-Ended :
      (payloads : List String) (error : Error) (c : Client Socket)
      → Ended payloads c
      → Ended payloads (fail P error c)
  unfolding fail
  fail-Ended payloads error c v =
      if_either (Ended payloads) c.closed (λ _. v) (λ e. cc (v.is_closed))

  refuse-Ended :
      (payloads : List String) (error : Error) (c : Client Socket)
      → Ended payloads c
      → Ended payloads (refuse error c)
  unfolding refuse
  refuse-Ended payloads error c v = v

  step-Ended :
      (payloads : List String) (e : Event Socket) (c : Client Socket)
      → Ended payloads c
      → Ended payloads (step P e c)
  unfolding step on_disconnect invoke close on_message call on_connect_deadline on_request_deadline
      find_timer
  step-Ended payloads opened c v = OnlyLogs-Ended payloads _ _ (debug-OnlyLogs P "open" none c) v
  step-Ended payloads errored c v = fail-Ended payloads socket_failed c v
  step-Ended payloads disconnected c v =
      OnlyLogs-Ended payloads _ _ (notify-OnlyLogs P on_close _)
        (finish-Ended payloads socket_closed c v)
  step-Ended payloads (received frame) c v =
      if_either (Ended payloads) c.closed (λ _. v) (λ e. cc (v.is_closed))
  step-Ended payloads connect_deadline c v = fired c.connect_timer
    where
      fired :
          (o : Option ℕ)
          → Ended payloads (elim o [
            | none ↦ c
            | some delay ↦ fail P connection_timed_out (record c { connect_timer = none })
          ])
      fired none = v
      fired (some delay) = fail-Ended payloads connection_timed_out _ v
  step-Ended payloads (request_deadline handle) c v =
      let none_left : find_timer handle c.timers ≡ none = rw v.no_timer refl in
      rw (none_left, on_request_deadline) v
  step-Ended payloads (socket_changed socket) c v = v
  step-Ended payloads (called command) c v =
      if_either (Ended payloads) c.closed (λ _. refuse-Ended payloads socket_closed c v)
        (λ e. cc (v.is_closed))
  step-Ended payloads closing c v = finish-Ended payloads socket_closed c v

  run-Ended :
      (payloads : List String) (es : List (Event Socket)) (c : Client Socket)
      → Ended payloads c
      → Ended payloads (run P es c)
  unfolding run
  run-Ended payloads [] c v = v
  run-Ended payloads (e ∷ es) c v = run-Ended payloads es _ (step-Ended payloads e c v)

  closed-Ended :
      (c : Client Socket) → HasBooks c → HasPhases c → c.closed ≡ true → Ended (sends c.log) c
  closed-Ended c b v h = record {
    is_closed = h;
    nothing = v.settled_all h;
    no_timer = b.timed ∙ ap (map _) (v.settled_all h);
    sent_all = refl;
  }

  finish-ClosedAt : (error : Error) (c : Client Socket) → ClosedAt c.tickets (finish P error c)
  unfolding finish
  finish-ClosedAt error c =
      if_either (ClosedAt c.tickets) c.closed (λ e. (e, refl))
        λ e.
          let (q, ts, ss, same) = settle_all-keys error (ended error c) in
          OnlyLogs-ClosedAt c.tickets _ _ (debug-OnlyLogs P _ _ _) (rw same (refl, refl))

-- A closed client stays closed whatever follows: nothing is pending again, no timer of a request
-- runs, and no request is sent.
pub run-Ended_of_closed :
    (P : Platform) (s : Settings) (socket : P.Socket) (before after : List (Event P.Socket))
    {c : Client P.Socket}
    → connect s socket ≡ ok c
    → (run P before c).closed ≡ true
    → Ended (sends (run P before c).log) (run P after (run P before c))
run-Ended_of_closed P s socket before after {c} h e = run-Ended P _ after (run P before c) (
    closed-Ended P (run P before c) (run-connect-HasBooks P s socket before h)
      (run-connect-HasPhases P s socket before h) e)

pub close_closes : (P : Platform) (c : Client P.Socket) → (close P c).closed ≡ true
unfolding close
close_closes P c = (finish-ClosedAt P socket_closed c).0

-- `close` leaves no promise open: each one that a call returned before is settled exactly once.
pub close_settles :
    (P : Platform) (s : Settings) (socket : P.Socket) (es : List (Event P.Socket))
    {c : Client P.Socket} (t : ℕ)
    → connect s socket ≡ ok c
    → t < (run P es c).tickets
    → ((close P (run P es c)).closed ≡ true)
      × (total (settles t) (close P (run P es c)).settled ≡ 1)
unfolding close
close_settles P s socket es {c} t h lt =
    let r = run P es c in
    let b = close-HasBooks P r (run-connect-HasBooks P s socket es h) in
    let v = close-HasPhases P r (run-connect-HasPhases P s socket es h) in
    let (shut, same) = finish-ClosedAt P socket_closed r in
    (shut, ground (arith, b.promised t, ap (total (holds t)) (v.settled_all shut)))
