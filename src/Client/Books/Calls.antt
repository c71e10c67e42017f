-- ===== src/Client/Books/Calls.antt =====
-- The books are kept by every call (priv/ui/js/client.js).
use wiregrid.Base.{
  ℕ, suc, ◌+◌, ◌≤◌, ◌<◌, ◌≡◌, none, some, arith, ltb, leb, ℕ_discrete, length, String, if_either,
}
use wiregrid.Base.JsMap.{get}
use wiregrid.Json.{Fields}
use wiregrid.Client.Types.{
  Result, ok, err, Platform, Client, socket_closed, too_many_pending, request_too_large,
  backpressure,
}
use wiregrid.Client.Seq.{max_seq, fresh_seq}
use wiregrid.Client.Fresh.{fresh_seq-Found, seq_after, seq_after_range}
use wiregrid.Client.Call.{refuse, admit, call_as, call}
use wiregrid.Client.Books.{HasBooks, InRange, refuse-HasBooks, enqueue-HasBooks}
use wiregrid.Client.Books.Kept.{send_pending-HasBooks}

module _ {S : Type 0} where
  -- With room for a request there is a number for it.
  pub fresh_seq-free :
      (c : Client S)
      → HasBooks c
      → length c.pending < c.max_pending
      → (id : ℕ) × (fresh_seq (suc (length c.pending)) c.seq c.pending ≡ some id)
        × InRange id
        × (get ℕ_discrete id c.pending ≡ none)
  fresh_seq-free c v room =
      let (i, near, e, free, _) =
        fresh_seq-Found c.seq c.pending v.seq_bound (omega (arith, v.limit)) in
      (
        seq_after c.seq (suc i),
        e,
        seq_after_range c.seq i v.seq_bound (omega (arith, v.limit)),
        ground arith,
      )

  pub renumber-HasBooks :
      (id : ℕ) (c : Client S) → id ≤ max_seq → HasBooks c → HasBooks (record c { seq = id })
  renumber-HasBooks id c h v = record {
    distinct = v.distinct;
    range = v.range;
    seq_bound = h;
    limit = v.limit;
    room = v.room;
    bytes = v.bytes;
    budget = v.budget;
    timed = v.timed;
    promised = v.promised;
  }

module _ (P : Platform) where
  open P use {Socket}

  admit-HasBooks :
      (id : ℕ) (op payload : String) (c : Client Socket)
      → HasBooks c
      → InRange id
      → get ℕ_discrete id c.pending ≡ none
      → length c.pending < c.max_pending
      → HasBooks (admit P id op payload c)
  unfolding admit
  admit-HasBooks id op payload c v i e small =
      if_either HasBooks (ltb c.max_buffered_bytes (P.byte_length payload))
        (λ _. refuse-HasBooks request_too_large c v)
        λ _.
          if_either HasBooks
            (ltb c.max_buffered_bytes
              (c.queued_bytes + P.buffered_amount c.socket + P.byte_length payload))
            (λ _. refuse-HasBooks backpressure c v)
            λ fits.
              let entered =
                enqueue-HasBooks id op payload (P.byte_length payload) c v i e small
                  (ground arith) in
              if_either HasBooks c.initialized (λ _. send_pending-HasBooks P id _ entered)
                (λ _. entered)

  call_as-HasBooks :
      (id : ℕ) (op : String) (fields : Fields) (c : Client Socket)
      → HasBooks c
      → InRange id
      → get ℕ_discrete id c.pending ≡ none
      → length c.pending < c.max_pending
      → HasBooks (call_as P id op fields c)
  unfolding call_as
  call_as-HasBooks id op fields c v i e small = encoded (P.stringify _)
    where
      encoded :
          (r : Result String)
          → HasBooks (elim r [ err error ↦ refuse error c | ok payload ↦ admit P id op payload c ])
      encoded (err error) = refuse-HasBooks error c v
      encoded (ok payload) = admit-HasBooks id op payload c v i e small

  pub call-HasBooks :
      (op : String) (fields : Fields) (c : Client Socket)
      → HasBooks c
      → HasBooks (call P op fields c)
  unfolding call
  call-HasBooks op fields c v =
      if_either HasBooks c.closed (λ _. refuse-HasBooks socket_closed c v)
        λ _.
          if_either HasBooks (leb c.max_pending (length c.pending))
            (λ _. refuse-HasBooks too_many_pending c v)
            λ small.
              let room : length c.pending < c.max_pending = ground arith in
              let (id, e, r, free) = fresh_seq-free c v room in
              rw e (call_as-HasBooks id op fields _ (renumber-HasBooks id c r.1 v) r free room)
