-- ===== src/Client/Requests.antt =====
-- What a call leaves behind (priv/ui/js/client.js): a request that is entered, or no trace but its
-- rejected promise.
use wiregrid.Base.{
  suc, ◌≤◌, ◌⊎◌, [], ◌++◌, ltb→lt, leb→le, ℕ, ◌+◌, ◌<◌, String, ◌≡◌, refl, ◌∙◌, ◌≢◌, inl, inr, true,
  false, not, ◌||◌, none, some, List, ◌∷◌, arith, ℕ_discrete, if_either, length, ltb, leb,
  String_discrete, ne_of_test,
}
use wiregrid.Base.JsMap.{get, set_new}
use wiregrid.Json.{
  obj, num, str, Fields, get_field, set_field, get_field-set_field_self, get_field-set_field_ne,
}
use wiregrid.Client.Types.{
  Error, Item, socket_closed, too_many_pending, request_too_large, backpressure, Result, ok, err,
  Platform, queued, sent, Effect, Client,
}
use wiregrid.Client.Core.{settle, debug, transmit, send_body, send_pending}
use wiregrid.Client.Call.{
  request, refuse, enqueue, admit, call_as, call, Command, command_op, command_fields, invoke,
}
use wiregrid.Client.Options.{Settings, connect}
use wiregrid.Client.Steps.{Event, run}
use wiregrid.Client.Phases.Run.{run-connect-HasBooks}
use wiregrid.Client.Frames.{sends, OnlyLogs, debug-OnlyLogs}
use wiregrid.Client.Books.{HasBooks}
use wiregrid.Client.Books.Calls.{fresh_seq-free}
use wiregrid.Client.Enqueued.{
  Refused, found, settle-enqueued-Refused, marked, marked_last, settle-marked-Refused,
}

-- No field of the caller's takes the place of the request's number and operation, and every other
-- field is sent as it was given.
pub request_routes :
    (fields : Fields) (id : ℕ) (op : String)
    → (o : Fields) × (request fields id op ≡ obj o)
      × (get_field "id" o ≡ some (num id))
      × (get_field "op" o ≡ some (str op))
      × ((name : String) → name ≢ "id" → name ≢ "op" → get_field name o ≡ get_field name fields)
unfolding request String_discrete
request_routes fields id op = (
  set_field "op" (str op) (set_field "id" (num id) fields),
  refl,
  get_field-set_field_ne "op" "id" (str op) _ (ne_of_test "id" "op" refl)
      ∙ get_field-set_field_self "id" (num id) fields,
  get_field-set_field_self "op" (str op) _,
  λ name a b.
      get_field-set_field_ne "op" name (str op) _ b
      ∙ get_field-set_field_ne "id" name (num id) fields a,
)

module _ (P : Platform) (op : String) (fields : Fields) where
  open P use {Socket}

  -- The text of the request with this number.
  abbrev Encoded : ℕ → String → Type 0
  Encoded id payload = P.stringify (request fields id op) ≡ ok payload

  -- The request, with the fields of the call, is entered at the end under a number that was free and
  -- under the call's promise, and no promise is settled. An initialized client has sent the text of
  -- the request, and any other keeps it.
  pub record Entered (c d : Client Socket) : Type 0 where
    pub id : ℕ
    pub item : Item
    pub payload : String
    pub encoded : Encoded id payload
    pub fresh : get ℕ_discrete id c.pending ≡ none
    pub numbered : d.seq ≡ id
    pub entered : d.pending ≡ c.pending ++ (id, item) ∷ []
    pub promise : item.ticket ≡ c.tickets
    pub operation : item.op ≡ op
    pub one_more : d.tickets ≡ suc c.tickets
    pub none_settled : d.settled ≡ c.settled
    pub sent_or_queued :
        ((c.initialized ≡ true) × (item.body ≡ sent) × (sends d.log ≡ payload ∷ sends c.log))
        ⊎ ((c.initialized ≡ false)
            × (item.body ≡ queued payload (P.byte_length payload))
            × (sends d.log ≡ sends c.log))

  -- Why a request that has this text is refused: it is too large, there is no room for it now, or an
  -- initialized client finds its socket not open or cannot send it.
  abbrev pub Unsendable : String → Error → Client Socket → Type 0
  Unsendable payload error c =
      ((error ≡ request_too_large) × (c.max_buffered_bytes < P.byte_length payload))
      ⊎ (((error ≡ backpressure)
            × (c.max_buffered_bytes
                < c.queued_bytes + P.buffered_amount c.socket + P.byte_length payload))
          ⊎ ((c.initialized ≡ true)
              × (((error ≡ socket_closed) × (P.is_open c.socket ≡ false))
                  ⊎ (P.send c.socket payload ≡ err error))))

  -- Why a call is refused: the client is closed, too many requests are pending, the request has no
  -- text, or as above.
  abbrev pub Refusable : ℕ → Error → Client Socket → Type 0
  Refusable id error c =
      ((error ≡ socket_closed) × (c.closed ≡ true))
      ⊎ (((error ≡ too_many_pending) × (c.max_pending ≤ length c.pending))
          ⊎ ((P.stringify (request fields id op) ≡ err error)
              ⊎ ((payload : String) × Encoded id payload × Unsendable payload error c)))

  abbrev pub Declined : Client Socket → Client Socket → Type 0
  Declined c d = (id : ℕ) × (error : Error) × Refused id error c d × Refusable id error c

  abbrev pub Outcome : Client Socket → Client Socket → Type 0
  Outcome c d = Declined c d ⊎ Entered c d

module _ (P : Platform) (id : ℕ) (op payload : String) (fields : Fields) (c : Client P.Socket)
    (free : get ℕ_discrete id c.pending ≡ none) (b : HasBooks c) (alive : c.closed ≡ false)
    (text : P.stringify (request fields id op) ≡ ok payload) where
  abbrev bytes : ℕ
  bytes = P.byte_length payload

  unsent :
      (error : Error) (d : Client P.Socket)
      → Refused id error c d
      → Unsendable P op fields payload error c
      → Outcome P op fields c d
  unsent error d e why = inl (id, error, e, inr (inr (inr (payload, text, why))))

  -- Entered, not ready yet.
  waiting-Entered :
      c.initialized ≡ false
      → Entered P op fields c (enqueue id op payload bytes (record c { seq = id }))
  unfolding enqueue
  waiting-Entered i = record {
    id = id;
    item = record { ticket = c.tickets; op = op; body = queued payload bytes };
    payload = payload;
    encoded = text;
    fresh = free;
    numbered = refl;
    entered = set_new ℕ_discrete id _ c.pending free;
    promise = refl;
    operation = refl;
    one_more = refl;
    none_settled = refl;
    sent_or_queued = inr (i, refl, refl);
  }

  OnlyLogs-Entered :
      (d : Client P.Socket) (socket : P.Socket)
      → c.initialized ≡ true
      → OnlyLogs
          (record (marked id op payload bytes c free b) {
            socket = socket;
            log = Effect.request_sent payload ∷ c.log;
          })
          d
      → Entered P op fields c d
  unfolding enqueue sends
  OnlyLogs-Entered d socket i (log, e, same) = rw e (record {
    id = id;
    item = record { ticket = c.tickets; op = op; body = sent };
    payload = payload;
    encoded = text;
    fresh = free;
    numbered = refl;
    entered = marked_last id op payload bytes c free b;
    promise = refl;
    operation = refl;
    one_more = refl;
    none_settled = refl;
    sent_or_queued = inl (i, refl, same);
  })

  transmit-Outcome :
      c.initialized ≡ true
      → Outcome P op fields c (transmit P id op payload (marked id op payload bytes c free b))
  unfolding transmit enqueue
  transmit-Outcome i = tried (P.send c.socket payload) refl
    where
      tried :
          (r : Result P.Socket)
          → P.send c.socket payload ≡ r
          → Outcome P op fields c (elim r [
            | err error ↦ settle id (err error) (marked id op payload bytes c free b)
            | ok socket ↦
                debug P "request" (some op) (record (marked id op payload bytes c free b) {
                  socket = socket;
                  log = Effect.request_sent payload ∷ c.log;
                })
          ])
      tried (err error) e =
          unsent error _ (settle-marked-Refused id op payload bytes c free b error)
            (inr (inr (i, inr e)))
      tried (ok socket) e = inr (OnlyLogs-Entered _ socket i (debug-OnlyLogs P _ _ _))

  send_pending-Outcome :
      c.initialized ≡ true
      → Outcome P op fields c
          (send_pending P id (enqueue id op payload bytes (record c { seq = id })))
  unfolding send_pending send_body enqueue
  send_pending-Outcome i =
      rw (found id op payload bytes c free b, send_pending)
        (if_either (Outcome P op fields c) (c.closed || not (P.is_open c.socket))
          (λ shut.
            unsent socket_closed _
              (settle-enqueued-Refused id op payload bytes c free b socket_closed)
              (inr (inr (i, inl (refl, ground (arith, alive, shut))))))
          λ _.
            if_either (Outcome P op fields c)
              (ltb c.max_buffered_bytes (P.buffered_amount c.socket + bytes))
              (λ full.
                unsent backpressure _
                  (settle-enqueued-Refused id op payload bytes c free b backpressure)
                  (inr (inl (refl, omega (arith, ltb→lt _ _ full)))))
              (λ _. transmit-Outcome i))

  admit-Outcome : Outcome P op fields c (admit P id op payload (record c { seq = id }))
  unfolding admit refuse
  admit-Outcome =
      if_either (Outcome P op fields c) (ltb c.max_buffered_bytes bytes)
        (λ large. unsent request_too_large _ refl (inl (refl, ltb→lt _ _ large)))
        λ _.
          if_either (Outcome P op fields c)
            (ltb c.max_buffered_bytes (c.queued_bytes + P.buffered_amount c.socket + bytes))
            (λ full. unsent backpressure _ refl (inr (inl (refl, ltb→lt _ _ full))))
            λ _.
              if_either (Outcome P op fields c) c.initialized (λ i. send_pending-Outcome i)
                (λ i. inr (waiting-Entered i))

module _ (P : Platform) where
  open P use {Socket}

  call_as-Outcome :
      (id : ℕ) (op : String) (fields : Fields) (c : Client Socket)
      → get ℕ_discrete id c.pending ≡ none
      → HasBooks c
      → c.closed ≡ false
      → Outcome P op fields c (call_as P id op fields (record c { seq = id }))
  unfolding call_as refuse
  call_as-Outcome id op fields c free b alive = encoded (P.stringify (request fields id op)) refl
    where
      encoded :
          (r : Result String)
          → P.stringify (request fields id op) ≡ r
          → Outcome P op fields c (elim r [
            | err error ↦ refuse error (record c { seq = id })
            | ok payload ↦ admit P id op payload (record c { seq = id })
          ])
      encoded (err error) e = inl (id, error, refl, inr (inr (inl e)))
      encoded (ok payload) e = admit-Outcome P id op payload fields c free b alive e

  call-Outcome :
      (op : String) (fields : Fields) (c : Client Socket)
      → HasBooks c
      → Outcome P op fields c (call P op fields c)
  unfolding call refuse
  call-Outcome op fields c b =
      if_either (Outcome P op fields c) c.closed
        (λ shut. inl (c.seq, socket_closed, refl, inl (refl, shut)))
        λ alive.
          if_either (Outcome P op fields c) (leb c.max_pending (length c.pending))
            (λ full. inl (c.seq, too_many_pending, refl, inr (inl (refl, leb→le _ _ full))))
            λ small.
              let room : length c.pending < c.max_pending = ground arith in
              let (id, e, _, free) = fresh_seq-free c b room in
              rw e (call_as-Outcome id op fields c free b alive)

-- A call leaves its request pending, at the end, under a free number and a new promise: an initialized
-- client has then sent the text that `JSON.stringify` makes of the request, and any other keeps that
-- text. Or the call is refused, for one of the reasons that there are, with that reason's error, and
-- nothing but the last request number and the new, rejected promise shows it.
pub invoke-Outcome :
    (P : Platform) (s : Settings) (socket : P.Socket) (es : List (Event P.Socket))
    (command : Command) {c : Client P.Socket}
    → connect s socket ≡ ok c
    → Outcome P
        (command_op command)
        (command_fields command)
        (run P es c)
        (invoke P command (run P es c))
unfolding invoke
invoke-Outcome P s socket es command {c} h =
    call-Outcome P (command_op command) (command_fields command) (run P es c)
      (run-connect-HasBooks P s socket es h)
