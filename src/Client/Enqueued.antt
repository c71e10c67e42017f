-- ===== src/Client/Enqueued.antt =====
-- A request that is entered at the end, and what is left when it is settled again (priv/ui/js/client.js).
use wiregrid.Base.{
  ℕ, suc, ◌+◌, ◌-◌, String, ◌≡◌, ap, ◌∙◌, ◌≢◌, none, some, [], ◌∷◌, ◌++◌, map, arith, ℕ_discrete,
  total, All,
}
use wiregrid.Base.JsMap.{get, delete, get-set_self, set_new, Avoids_of_none}
use wiregrid.Client.Types.{Error, err, queued, sent, Item, Timer, Client}
use wiregrid.Client.Core.{settle, clear, mark_sent}
use wiregrid.Client.Call.{enqueue}
use wiregrid.Client.Entries.{Pending, holds, timer_of}
use wiregrid.Client.Books.{HasBooks}

-- The call was refused with this error: its promise is rejected, and all else is as it was, but for
-- the last number.
abbrev pub Refused : {S : Type 0} → ℕ → Error → Client S → Client S → Type 0
Refused id error c d =
    d ≡ record c { seq = id; tickets = suc c.tickets; settled = (c.tickets, err error) ∷ c.settled }

delete_last :
    (id : ℕ) (item : Item) (l : Pending)
    → All (λ e. e.0 ≢ id) l
    → delete ℕ_discrete id (l ++ (id, item) ∷ []) ≡ l
unfolding delete
delete_last id item [] h = ground arith
delete_last id item ((j, v) ∷ l) h = ground (arith, delete_last id item l h.1)

mark_sent_last :
    (id : ℕ) (item : Item) (l : Pending)
    → All (λ e. e.0 ≢ id) l
    → mark_sent id (l ++ (id, item) ∷ []) ≡ l ++ (id, record item { body = sent }) ∷ []
unfolding mark_sent
mark_sent_last id item [] h = ground arith
mark_sent_last id item ((j, v) ∷ l) h = ground (arith, mark_sent_last id item l h.1)

clear_last :
    (d : ℕ) (t : Timer) (l : Pending)
    → total (holds t.handle) l ≡ 0
    → clear t.handle (map (timer_of d) l ++ t ∷ []) ≡ map (timer_of d) l
unfolding clear
clear_last d t [] h = ground arith
clear_last d t ((j, v) ∷ l) h = ground (arith, clear_last d t l)

get_last :
    (id : ℕ) (item : Item) (l : Pending)
    → All (λ e. e.0 ≢ id) l
    → get ℕ_discrete id (l ++ (id, item) ∷ []) ≡ some item
unfolding get
get_last id item [] h = ground arith
get_last id item ((j, v) ∷ l) h = ground (arith, get_last id item l h.1)

-- A request that was entered under a free number and then settled leaves no trace.
module _ {S : Type 0} (id : ℕ) (op payload : String) (bytes : ℕ) (c : Client S)
    (free : get ℕ_discrete id c.pending ≡ none) (b : HasBooks c) where
  abbrev new_item : Item
  new_item = record { ticket = c.tickets; op = op; body = queued payload bytes }

  abbrev enqueued : Client S
  enqueued = enqueue id op payload bytes (record c { seq = id })

  no_entry : All (λ e. e.0 ≢ id) c.pending
  no_entry = Avoids_of_none ℕ_discrete id c.pending free

  pub found : get ℕ_discrete id enqueued.pending ≡ some new_item
  unfolding enqueue
  found = get-set_self ℕ_discrete id _ c.pending

  pub last : enqueued.pending ≡ c.pending ++ (id, new_item) ∷ []
  unfolding enqueue
  last = set_new ℕ_discrete id new_item c.pending free

  no_ticket : total (holds c.tickets) c.pending ≡ 0
  no_ticket = ground (arith, b.promised c.tickets)

  settled_pending : delete ℕ_discrete id enqueued.pending ≡ c.pending
  settled_pending = ap (delete ℕ_discrete id) last ∙ delete_last id new_item c.pending no_entry

  settled_timers : clear c.tickets enqueued.timers ≡ c.timers
  unfolding enqueue
  settled_timers = rw b.timed (clear_last c.request_timeout _ c.pending no_ticket)

  bytes_back : c.queued_bytes + bytes - bytes ≡ c.queued_bytes
  bytes_back = omega arith

  sent_bytes_back : c.queued_bytes + bytes - bytes - 0 ≡ c.queued_bytes
  sent_bytes_back = omega arith

  pub settle-enqueued-Refused :
      (error : Error) → Refused id error c (settle id (err error) enqueued)
  unfolding settle enqueue
  settle-enqueued-Refused error =
      rw (found, settle)
        (λ i. record c {
          seq = id;
          pending = settled_pending i;
          queued_bytes = bytes_back i;
          timers = settled_timers i;
          tickets = suc c.tickets;
          settled = (c.tickets, err error) ∷ c.settled;
        })

  -- The state in which `socket.send` is called.
  abbrev pub marked : Client S
  marked = record enqueued {
    pending = mark_sent id enqueued.pending;
    queued_bytes = enqueued.queued_bytes - bytes;
  }

  pub marked_last : marked.pending ≡ c.pending ++ (id, record new_item { body = sent }) ∷ []
  marked_last = ap (mark_sent id) last ∙ mark_sent_last id new_item c.pending no_entry

  marked_found : get ℕ_discrete id marked.pending ≡ some (record new_item { body = sent })
  marked_found = rw marked_last (get_last id _ c.pending no_entry)

  marked_gone : delete ℕ_discrete id marked.pending ≡ c.pending
  marked_gone = ap (delete ℕ_discrete id) marked_last ∙ delete_last id _ c.pending no_entry

  pub settle-marked-Refused : (error : Error) → Refused id error c (settle id (err error) marked)
  unfolding settle enqueue
  settle-marked-Refused error =
      rw (marked_found, settle)
        (λ i. record c {
          seq = id;
          pending = marked_gone i;
          queued_bytes = sent_bytes_back i;
          timers = settled_timers i;
          tickets = suc c.tickets;
          settled = (c.tickets, err error) ∷ c.settled;
        })
