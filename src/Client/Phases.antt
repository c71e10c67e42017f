-- ===== src/Client/Phases.antt =====
-- The life of the client (priv/ui/js/client.js): before the ready message, while it is ready, and
-- closed. What holds in each phase, and that settling a request keeps it so.
pub mod Sending
pub mod Closing
pub mod Messages
pub mod Calls
pub mod Run
use wiregrid.Base.{
  ℕ, String, ◌≡◌, refl, ap, Bool, true, false, not, ◌||◌, if◌then◌else◌, Option, none, some, List,
  [], ◌∷◌, arith, ℕ_discrete, length, All, Option-cases, inl, inr,
}
use wiregrid.Base.JsMap.{get, delete, All-delete}
use wiregrid.Json.{Json}
use wiregrid.Client.Types.{
  Error, Result, err, Platform, Item, Limits, Ready, waiting, resolved, rejected, Effect, Client,
}
use wiregrid.Client.Core.{settle, settle_all}
use wiregrid.Client.Entries.{Pending, IsSent}
use wiregrid.Client.Frames.{sends, OnlyLogs}

abbrev pub is_waiting : Ready → Bool
is_waiting waiting = true
is_waiting _ = false

pub record Phases (connect_timeout : ℕ) (pending : Pending) (closed initialized : Bool)
    (ready : Ready) (connect_timer : Option ℕ) (payloads : List String) : Type 0 where
  -- A closed client owes nothing.
  pub settled_all : closed ≡ true → pending ≡ []
  -- After the ready message nothing waits to be sent.
  pub sent_all : initialized ≡ true → All IsSent pending
  -- Before it nothing is sent.
  pub gate : initialized ≡ false → payloads ≡ []
  -- The promise `ready` and the connect timer last until the ready message or the end.
  pub undecided : is_waiting ready ≡ not (closed || initialized)
  pub deadline : connect_timer ≡ (if closed || initialized then none else some connect_timeout)

abbrev pub HasPhases : {S : Type 0} → Client S → Type 0
HasPhases c =
    Phases c.connect_timeout c.pending c.closed c.initialized c.ready c.connect_timer (sends c.log)

pub OnlyLogs-HasPhases : {S : Type 0} (c d : Client S) → OnlyLogs c d → HasPhases c → HasPhases d
OnlyLogs-HasPhases c d (log, e, same) v = rw (e, same) v

delete_nil : (id : ℕ) (l : Pending) → l ≡ [] → delete ℕ_discrete id l ≡ []
unfolding delete
delete_nil id l e = rw e refl

module _ {S : Type 0} where
  pub settle-HasPhases :
      (id : ℕ) (r : Result Json) (c : Client S) → HasPhases c → HasPhases (settle id r c)
  unfolding settle
  settle-HasPhases id r c v = elim (Option-cases (get ℕ_discrete id c.pending)) [
    | inl e ↦ rw (e, settle) v
    | inr (item, e) ↦
        rw (e, settle)
          (record {
            settled_all = λ h. delete_nil id c.pending (v.settled_all h);
            sent_all = λ h. All-delete ℕ_discrete IsSent id c.pending (v.sent_all h);
            gate = v.gate;
            undecided = v.undecided;
            deadline = v.deadline;
          })
  ]
