-- ===== src/Client/Phases/Sending.antt =====
-- Sending what is queued, on the ready message and after it (priv/ui/js/client.js).
use wiregrid.Base.{
  ℕ, ◌+◌, String, ◌≡◌, refl, ◌⊎◌, Bool, true, false, not, ◌||◌, Option, none, some, List, [], ◌∷◌,
  arith, if_pos, if_neg, ltb, ℕ_discrete, All, All-append, Option-cases, inl, inr, if_either,
}
use wiregrid.Base.JsMap.{get, delete, All-delete, keys, Distinct, Avoids_of_none, set_new}
use wiregrid.Json.{Json}
use wiregrid.Client.Types.{
  Result, ok, err, Platform, Body, queued, sent, Item, Ready, Client, Effect,
}
use wiregrid.Client.Core.{settle, debug, mark_sent, transmit, send_body, send_pending, send_all}
use wiregrid.Client.Call.{enqueue}
use wiregrid.Client.Entries.{Pending, IsSent}
use wiregrid.Client.Frames.{OnlyLogs, debug-OnlyLogs}
use wiregrid.Client.Books.{HasBooks}
use wiregrid.Client.Books.Kept.{send_pending-HasBooks}
use wiregrid.Client.Phases.{HasPhases, is_waiting}
use wiregrid.Client.Phases.Closing.{In, In-keys}

-- Sent, or among those that are sent next.
abbrev IsDue : List ℕ → ℕ × Item → Type 0
IsDue ids e = IsSent e ⊎ In e.0 ids

IsDue-tail :
    (id : ℕ) (ids : List ℕ) (e : ℕ × Item) → ¬ (e.0 ≡ id) → IsDue (id ∷ ids) e → IsDue ids e
IsDue-tail id ids e h (inl s) = inl s
IsDue-tail id ids e h (inr (inl p)) = absurd (h p)
IsDue-tail id ids e h (inr (inr i)) = inr i

-- One of the numbers is dealt with: it is absent, deleted, marked, or was sent before.
Due_absent :
    (id : ℕ) (ids : List ℕ) (l : Pending)
    → All (λ e. ¬ (e.0 ≡ id)) l
    → All (IsDue (id ∷ ids)) l
    → All (IsDue ids) l
Due_absent id ids [] a h = tt
Due_absent id ids (e ∷ l) a h = (IsDue-tail id ids e a.0 h.0, Due_absent id ids l a.1 h.1)

Due-delete :
    (id : ℕ) (ids : List ℕ) (l : Pending)
    → All (IsDue (id ∷ ids)) l
    → All (IsDue ids) (delete ℕ_discrete id l)
unfolding delete
Due-delete id ids [] h = tt
Due-delete id ids ((j, v) ∷ l) h = elim (ℕ_discrete j id) [
  | yes p ↦ rw (if_pos _ p) (Due-delete id ids l h.1)
  | no p ↦ rw (if_neg _ p) (IsDue-tail id ids (j, v) p h.0, Due-delete id ids l h.1)
]

Due-mark_sent :
    (id : ℕ) (ids : List ℕ) (l : Pending)
    → All (IsDue (id ∷ ids)) l
    → All (IsDue ids) (mark_sent id l)
unfolding mark_sent
Due-mark_sent id ids [] h = tt
Due-mark_sent id ids ((j, v) ∷ l) h = elim (ℕ_discrete j id) [
  | yes p ↦ rw (if_pos _ p) (inl refl, Due-mark_sent id ids l h.1)
  | no p ↦ rw (if_neg _ p) (IsDue-tail id ids (j, v) p h.0, Due-mark_sent id ids l h.1)
]

Due_sent :
    (id : ℕ) (ids : List ℕ) (item : Item) (l : Pending)
    → Distinct l
    → get ℕ_discrete id l ≡ some item
    → item.body ≡ sent
    → All (IsDue (id ∷ ids)) l
    → All (IsDue ids) l
unfolding get
Due_sent id ids item [] u e s h = tt
Due_sent id ids item ((j, v) ∷ l) u e s h = elim (ℕ_discrete j id) [
  | yes p ↦ (inl (ground arith), Due_absent id ids l (rw (← p) u.0) h.1)
  | no p ↦ (IsDue-tail id ids (j, v) p h.0, Due_sent id ids item l u.1 (ground arith) s h.1)
]

IsDue-nil : (l : Pending) → All (IsDue []) l → All IsSent l
IsDue-nil [] h = tt
IsDue-nil ((j, v) ∷ l) (inl s, h) = (s, IsDue-nil l h)
IsDue-nil ((j, v) ∷ l) (inr n, h) = absurd n

In-IsDue : (ids : List ℕ) (l : Pending) → All (λ e. In e.0 ids) l → All (IsDue ids) l
In-IsDue ids [] h = tt
In-IsDue ids (e ∷ l) h = (inr h.0, In-IsDue ids l h.1)

IsSent-IsDue : (ids : List ℕ) (l : Pending) → All IsSent l → All (IsDue ids) l
IsSent-IsDue ids [] h = tt
IsSent-IsDue ids (e ∷ l) h = (inl h.0, IsSent-IsDue ids l h.1)

-- The client is open and ready, and no request waits but the given ones.
pub record Sending (ids : List ℕ) (pending : Pending) (closed initialized : Bool) (ready : Ready)
    (connect_timer : Option ℕ) : Type 0 where
  pub due : All (IsDue ids) pending
  pub is_open : closed ≡ false
  pub is_ready : initialized ≡ true
  pub decided : is_waiting ready ≡ false
  pub no_deadline : connect_timer ≡ none

abbrev pub IsSending : {S : Type 0} → List ℕ → Client S → Type 0
IsSending ids c = Sending ids c.pending c.closed c.initialized c.ready c.connect_timer

OnlyLogs-IsSending :
    {S : Type 0} (ids : List ℕ) (c d : Client S) → OnlyLogs c d → IsSending ids c → IsSending ids d
OnlyLogs-IsSending ids c d (log, e, _) v = rw e v

module _ {S : Type 0} where
  settle_rest :
      (id : ℕ) (ids : List ℕ) (r : Result Json) (c : Client S)
      → IsSending ids c
      → IsSending ids (settle id r c)
  unfolding settle
  settle_rest id ids r c v = elim (Option-cases (get ℕ_discrete id c.pending)) [
    | inl e ↦ rw (e, settle) v
    | inr (item, e) ↦
        rw (e, settle)
          (record {
            due = All-delete ℕ_discrete (IsDue ids) id c.pending v.due;
            is_open = v.is_open;
            is_ready = v.is_ready;
            decided = v.decided;
            no_deadline = v.no_deadline;
          })
  ]

  settle_next :
      (id : ℕ) (ids : List ℕ) (item : Item) (r : Result Json) (c : Client S)
      → get ℕ_discrete id c.pending ≡ some item
      → IsSending (id ∷ ids) c
      → IsSending ids (settle id r c)
  unfolding settle
  settle_next id ids item r c e v =
      rw (e, settle)
        (record {
          due = Due-delete id ids c.pending v.due;
          is_open = v.is_open;
          is_ready = v.is_ready;
          decided = v.decided;
          no_deadline = v.no_deadline;
        })

module _ (P : Platform) where
  open P use {Socket}

  transmit-IsSending :
      (id : ℕ) (ids : List ℕ) (op payload : String) (c : Client Socket)
      → IsSending ids c
      → IsSending ids (transmit P id op payload c)
  unfolding transmit
  transmit-IsSending id ids op payload c v = sent_or_failed (P.send c.socket payload)
    where
      sent_or_failed :
          (r : Result Socket)
          → IsSending ids (elim r [
            | err error ↦ settle id (err error) c
            | ok socket ↦
                debug P "request"
                  (some op)
                  (record c { socket = socket; log = Effect.request_sent payload ∷ c.log })
          ])
      sent_or_failed (ok socket) = OnlyLogs-IsSending ids _ _ (debug-OnlyLogs P _ _ _) v
      sent_or_failed (err error) = settle_rest id ids (err error) c v

  send_body-IsSending :
      (id : ℕ) (ids : List ℕ) (item : Item) (op : String) (b : Body) (c : Client Socket)
      → Distinct c.pending
      → get ℕ_discrete id c.pending ≡ some item
      → item.body ≡ b
      → IsSending (id ∷ ids) c
      → IsSending ids (send_body P id op b c)
  unfolding send_body
  send_body-IsSending id ids item op sent c u e f v = record {
    due = Due_sent id ids item c.pending u e f v.due;
    is_open = v.is_open;
    is_ready = v.is_ready;
    decided = v.decided;
    no_deadline = v.no_deadline;
  }
  send_body-IsSending id ids item op (queued payload bytes) c u e f v =
      if_either (IsSending ids) (c.closed || not (P.is_open c.socket))
        (λ shut. settle_next id ids item _ c e v)
        λ open_.
          if_either (IsSending ids) (ltb c.max_buffered_bytes (P.buffered_amount c.socket + bytes))
            (λ full. settle_next id ids item _ c e v)
            λ fits. transmit-IsSending id ids op payload _ (record {
              due = Due-mark_sent id ids c.pending v.due;
              is_open = v.is_open;
              is_ready = v.is_ready;
              decided = v.decided;
              no_deadline = v.no_deadline;
            })

  pub send_pending-IsSending :
      (id : ℕ) (ids : List ℕ) (c : Client Socket)
      → Distinct c.pending
      → IsSending (id ∷ ids) c
      → IsSending ids (send_pending P id c)
  unfolding send_pending
  send_pending-IsSending id ids c u v = elim (Option-cases (get ℕ_discrete id c.pending)) [
    | inl e ↦
        rw (e, send_pending)
          (record {
            due = Due_absent id ids c.pending (Avoids_of_none ℕ_discrete id c.pending e) v.due;
            is_open = v.is_open;
            is_ready = v.is_ready;
            decided = v.decided;
            no_deadline = v.no_deadline;
          })
    | inr (item, e) ↦
        rw (e, send_pending) (send_body-IsSending id ids item item.op item.body c u e refl v)
  ]

  send_all-IsSending :
      (ids : List ℕ) (c : Client Socket)
      → HasBooks c
      → IsSending ids c
      → IsSending [] (send_all P ids c)
  unfolding send_all
  send_all-IsSending [] c b v = v
  send_all-IsSending (id ∷ ids) c b v =
      send_all-IsSending ids _ (send_pending-HasBooks P id c b)
        (send_pending-IsSending id ids c b.distinct v)

  pub IsSending-HasPhases : (c : Client Socket) → IsSending [] c → HasPhases c
  IsSending-HasPhases c v = record {
    settled_all = λ e. cc (v.is_open);
    sent_all = λ _. IsDue-nil c.pending v.due;
    gate = λ e. cc (v.is_ready);
    undecided = rw (v.is_open, v.is_ready) v.decided;
    deadline = rw (v.is_open, v.is_ready) v.no_deadline;
  }

  -- All that was queued before the ready message is sent on it.
  pub send_all-HasPhases :
      (c : Client Socket)
      → HasBooks c
      → c.closed ≡ false
      → c.initialized ≡ true
      → is_waiting c.ready ≡ false
      → c.connect_timer ≡ none
      → HasPhases (send_all P (keys c.pending) c)
  send_all-HasPhases c b o i r t = IsSending-HasPhases (send_all P (keys c.pending) c) (
      send_all-IsSending (keys c.pending) c b (record {
        due = In-IsDue (keys c.pending) c.pending (In-keys c.pending);
        is_open = o;
        is_ready = i;
        decided = r;
        no_deadline = t;
      }))

  -- A request that is called after it is sent at once.
  pub send_enqueued-HasPhases :
      (id : ℕ) (op payload : String) (bytes : ℕ) (c : Client Socket)
      → get ℕ_discrete id c.pending ≡ none
      → HasBooks (enqueue id op payload bytes c)
      → HasPhases c
      → c.closed ≡ false
      → c.initialized ≡ true
      → HasPhases (send_pending P id (enqueue id op payload bytes c))
  unfolding enqueue
  send_enqueued-HasPhases id op payload bytes c e b v o i =
      IsSending-HasPhases (send_pending P id (enqueue id op payload bytes c)) (
        send_pending-IsSending id [] (enqueue id op payload bytes c) b.distinct (record {
          due = rw (set_new ℕ_discrete id _ c.pending e) (
              All-append (IsDue (id ∷ [])) c.pending _
                (IsSent-IsDue (id ∷ []) c.pending (v.sent_all i)) (inr (inl refl), tt));
          is_open = o;
          is_ready = i;
          decided = rw (o, i) at v.undecided;
          no_deadline = rw (o, i) at v.deadline;
        }))
