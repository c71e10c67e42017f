-- ===== src/Client/Books.antt =====
-- The books of the client (priv/ui/js/client.js): what the pending requests, the queued bytes, the
-- request numbers, the timers and the promises have to do with each other, and that each inner
-- function keeps it so.
pub mod Kept
pub mod Messages
pub mod Calls
pub mod Run
use wiregrid.Base.{
  ℕ, zero, suc, ◌+◌, ◌-◌, ◌≤◌, ◌<◌, ◌≡◌, refl, ap, true, false, Option, none, some, List, [], ◌∷◌,
  ◌++◌, map, arith, if◌then◌else◌, ◌==◌, ltb, ℕ_discrete, length, length-append, All, total,
  total-append, Option-cases, inl, inr, String, All-append, map-append, Bool-cases,
}
use wiregrid.Base.JsMap.{
  JsMap, get, set, delete, Distinct, All-delete, delete-Distinct, total-delete, set_new,
  Avoids_of_none, keys,
}
use wiregrid.Json.{Json}
use wiregrid.Client.Types.{
  Error, Result, ok, err, Platform, Body, queued, sent, Item, Timer, Limits, Client, Notice,
}
use wiregrid.Client.Seq.{max_seq}
use wiregrid.Client.Core.{
  clear, mark_sent, settle, settle_all, report, notify, debug, finish, fail, close, transmit,
  send_body, send_pending, send_all,
}
use wiregrid.Client.Call.{enqueue, refuse}
use wiregrid.Client.Entries.{
  Pending, entry_bytes, holds, timer_of, length-delete_le, clear-delete, total-mark_sent,
  total-mark_sent_same, map-mark_sent, length-mark_sent, All-mark_sent, mark_sent-Distinct,
  append-Distinct,
}

-- 1 if this settlement is that of promise `t`.
abbrev pub settles : ℕ → ℕ × Result Json → ℕ
settles t s = if s.0 == t then 1 else 0

-- A request number that `call` can give.
abbrev pub InRange : ℕ → Type 0
InRange id = (1 ≤ id) × (id ≤ max_seq)

pub record Books (limits : Limits) (pending : Pending) (queued_bytes seq : ℕ) (timers : List Timer)
    (tickets : ℕ) (settled : List (ℕ × Result Json)) : Type 0 where
  -- No number is used twice.
  pub distinct : Distinct pending
  pub range : All (λ e. InRange e.0) pending
  pub seq_bound : seq ≤ max_seq
  pub limit : limits.max_pending < max_seq
  pub room : length pending ≤ limits.max_pending
  -- The count of queued bytes is exact, and within the limit.
  pub bytes : queued_bytes ≡ total entry_bytes pending
  pub budget : queued_bytes ≤ limits.max_buffered_bytes
  -- The timers that run are those of the pending requests.
  pub timed : timers ≡ map (timer_of limits.request_timeout) pending
  -- Each promise that was returned is pending or settled, once, and there are no others.
  pub promised :
      (t : ℕ)
      → total (holds t) pending + total (settles t) settled ≡ (if ltb t tickets then 1 else 0)

abbrev pub HasBooks : {S : Type 0} → Client S → Type 0
HasBooks c = Books c.limits c.pending c.queued_bytes c.seq c.timers c.tickets c.settled

module _ {S : Type 0} where
  pub settle-HasBooks :
      (id : ℕ) (r : Result Json) (c : Client S) → HasBooks c → HasBooks (settle id r c)
  unfolding settle
  settle-HasBooks id r c v = elim (Option-cases (get ℕ_discrete id c.pending)) [
    | inl e ↦ rw (e, settle) v
    | inr (item, e) ↦
        rw (e, settle)
          (record {
            distinct = delete-Distinct ℕ_discrete id c.pending v.distinct;
            range = All-delete ℕ_discrete (λ e. InRange e.0) id c.pending v.range;
            seq_bound = v.seq_bound;
            limit = v.limit;
            room = omega (arith, v.room, length-delete_le id c.pending);
            bytes =
                omega
                  (arith, v.bytes, total-delete ℕ_discrete entry_bytes id c.pending v.distinct e);
            budget = omega (arith, v.budget);
            timed =
                rw v.timed (
                  clear-delete id _ item c.pending v.distinct (λ t. ground (arith, v.promised t))
                    e);
            promised = λ t.
                ground (
                  arith,
                  v.promised t,
                  total-delete ℕ_discrete (holds t) id c.pending v.distinct e,
                );
          })
  ]

  pub settle_all-HasBooks :
      (ids : List ℕ) (error : Error) (c : Client S) → HasBooks c → HasBooks (settle_all ids error c)
  unfolding settle_all
  settle_all-HasBooks [] error c v = v
  settle_all-HasBooks (id ∷ ids) error c v =
      settle_all-HasBooks ids error _ (settle-HasBooks id (err error) c v)

  pub refuse-HasBooks : (error : Error) (c : Client S) → HasBooks c → HasBooks (refuse error c)
  unfolding refuse
  refuse-HasBooks error c v = record {
    distinct = v.distinct;
    range = v.range;
    seq_bound = v.seq_bound;
    limit = v.limit;
    room = v.room;
    bytes = v.bytes;
    budget = v.budget;
    timed = v.timed;
    promised = λ t. ground (arith, v.promised t);
  }

  -- A request that fits is entered.
  pub enqueue-HasBooks :
      (id : ℕ) (op payload : String) (bytes : ℕ) (c : Client S)
      → HasBooks c
      → InRange id
      → get ℕ_discrete id c.pending ≡ none
      → length c.pending < c.max_pending
      → c.queued_bytes + bytes ≤ c.max_buffered_bytes
      → HasBooks (enqueue id op payload bytes c)
  unfolding enqueue
  enqueue-HasBooks id op payload bytes c v i e small fits =
      rw (set_new ℕ_discrete id _ c.pending e) (record {
        distinct =
            append-Distinct c.pending _ v.distinct (Avoids_of_none ℕ_discrete id c.pending e);
        range = All-append (λ e. InRange e.0) c.pending _ v.range (i, tt);
        seq_bound = v.seq_bound;
        limit = v.limit;
        room = omega (arith, length-append c.pending (entry ∷ []));
        bytes = omega (arith, v.bytes, total-append entry_bytes c.pending (entry ∷ []));
        budget = fits;
        timed = rw (v.timed, map-append);
        promised = λ t. ground (arith, v.promised t, total-append (holds t) c.pending (entry ∷ []));
      })
    where
      entry : ℕ × Item
      entry = (id, record { ticket = c.tickets; op = op; body = queued payload bytes })

  -- A request is sent.
  pub mark_sent-HasBooks :
      (id : ℕ) (item : Item) (c : Client S)
      → get ℕ_discrete id c.pending ≡ some item
      → HasBooks c
      → HasBooks (record c {
        pending = mark_sent id c.pending;
        queued_bytes = c.queued_bytes - entry_bytes (id, item);
      })
  mark_sent-HasBooks id item c e v = record {
    distinct = mark_sent-Distinct id c.pending v.distinct;
    range = All-mark_sent InRange id c.pending v.range;
    seq_bound = v.seq_bound;
    limit = v.limit;
    room = rw (length-mark_sent id c.pending) v.room;
    bytes = omega (arith, v.bytes, total-mark_sent entry_bytes id item c.pending v.distinct e);
    budget = omega (arith, v.budget);
    timed = rw (map-mark_sent _ id c.pending) v.timed;
    promised = λ t. rw (total-mark_sent_same (holds t) id c.pending (λ e. refl)) (v.promised t);
  }
