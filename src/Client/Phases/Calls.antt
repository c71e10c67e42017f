-- ===== src/Client/Phases/Calls.antt =====
-- Every call keeps the client in one of its phases (priv/ui/js/client.js).
use wiregrid.Base.{
  ℕ, ◌+◌, ◌<◌, ◌≡◌, false, none, arith, ltb, leb, ℕ_discrete, length, String, if_either,
}
use wiregrid.Base.JsMap.{get}
use wiregrid.Json.{Fields}
use wiregrid.Client.Types.{
  Error, Result, ok, err, Platform, Client, socket_closed, too_many_pending, request_too_large,
  backpressure,
}
use wiregrid.Client.Call.{enqueue, refuse, admit, call_as, call}
use wiregrid.Client.Books.{HasBooks, InRange, enqueue-HasBooks}
use wiregrid.Client.Phases.{HasPhases}
use wiregrid.Client.Phases.Sending.{send_enqueued-HasPhases}
use wiregrid.Client.Books.Calls.{fresh_seq-free, renumber-HasBooks}

module _ (P : Platform) where
  open P use {Socket}

  refuse-HasPhases : (error : Error) (c : Client Socket) → HasPhases c → HasPhases (refuse error c)
  unfolding refuse
  refuse-HasPhases error c v = v

  -- Before the ready message a request is only entered.
  enqueue-HasPhases :
      (id : ℕ) (op payload : String) (bytes : ℕ) (c : Client Socket)
      → c.closed ≡ false
      → c.initialized ≡ false
      → HasPhases c
      → HasPhases (enqueue id op payload bytes c)
  unfolding enqueue
  enqueue-HasPhases id op payload bytes c o i v = record {
    settled_all = λ e. cc;
    sent_all = λ e. cc;
    gate = v.gate;
    undecided = v.undecided;
    deadline = v.deadline;
  }

  admit-HasPhases :
      (id : ℕ) (op payload : String) (c : Client Socket)
      → HasBooks c
      → InRange id
      → get ℕ_discrete id c.pending ≡ none
      → length c.pending < c.max_pending
      → c.closed ≡ false
      → HasPhases c
      → HasPhases (admit P id op payload c)
  unfolding admit
  admit-HasPhases id op payload c b r e small o v =
      if_either HasPhases (ltb c.max_buffered_bytes (P.byte_length payload))
        (λ _. refuse-HasPhases request_too_large c v)
        λ _.
          if_either HasPhases
            (ltb c.max_buffered_bytes
              (c.queued_bytes + P.buffered_amount c.socket + P.byte_length payload))
            (λ _. refuse-HasPhases backpressure c v)
            λ fits.
              let entered =
                enqueue-HasBooks id op payload (P.byte_length payload) c b r e small
                  (ground arith) in
              if_either HasPhases c.initialized
                (λ i.
                  send_enqueued-HasPhases P id op payload (P.byte_length payload) c e entered v o i)
                (λ i. enqueue-HasPhases id op payload (P.byte_length payload) c o i v)

  call_as-HasPhases :
      (id : ℕ) (op : String) (fields : Fields) (c : Client Socket)
      → HasBooks c
      → InRange id
      → get ℕ_discrete id c.pending ≡ none
      → length c.pending < c.max_pending
      → c.closed ≡ false
      → HasPhases c
      → HasPhases (call_as P id op fields c)
  unfolding call_as
  call_as-HasPhases id op fields c b r e small o v = encoded (P.stringify _)
    where
      encoded :
          (r : Result String)
          → HasPhases (elim r [ err error ↦ refuse error c | ok payload ↦ admit P id op payload c ])
      encoded (err error) = refuse-HasPhases error c v
      encoded (ok payload) = admit-HasPhases id op payload c b r e small o v

  pub call-HasPhases :
      (op : String) (fields : Fields) (c : Client Socket)
      → HasBooks c
      → HasPhases c
      → HasPhases (call P op fields c)
  unfolding call
  call-HasPhases op fields c b v =
      if_either HasPhases c.closed (λ _. refuse-HasPhases socket_closed c v)
        λ o.
          if_either HasPhases (leb c.max_pending (length c.pending))
            (λ _. refuse-HasPhases too_many_pending c v)
            λ small.
              let room : length c.pending < c.max_pending = ground arith in
              let (id, e, r, free) = fresh_seq-free c b room in
              rw e (call_as-HasPhases id op fields _ (renumber-HasBooks id c r.1 b) r free room o v)
