-- ===== src/Client/Phases/Closing.antt =====
-- `finish`, `fail` and `close` end the client's life (priv/ui/js/client.js), once.
use wiregrid.Base.{
  ℕ, ◌-◌, ◌≡◌, refl, sym, ap, ◌∙◌, ◌⊎◌, true, false, none, List, [], ◌∷◌, arith, if_pos, if_neg,
  ℕ_discrete, All, Option-cases, inl, inr, if_either, Bool-cases, subst,
}
use wiregrid.Base.JsMap.{get, delete, keys, delete_absent, Avoids_of_none}
use wiregrid.Json.{Json}
use wiregrid.Client.Types.{
  Error, Result, err, socket_closed, Platform, Ready, rejected, Timer, Client,
}
use wiregrid.Client.Core.{settle, settle_all, settle_ready, body_bytes, clear, finish, fail, close}
use wiregrid.Client.Entries.{Pending}
use wiregrid.Client.Frames.{sends, report-OnlyLogs, debug-OnlyLogs}
use wiregrid.Client.Phases.{HasPhases, is_waiting, OnlyLogs-HasPhases}

-- Membership.
abbrev pub In : ℕ → List ℕ → Type 0
In k [] = ⊥
In k (i ∷ is) = (k ≡ i) ⊎ In k is

delete_all : List ℕ → Pending → Pending
delete_all [] l = l
delete_all (id ∷ ids) l = delete_all ids (delete ℕ_discrete id l)

delete_all-nil : (ids : List ℕ) → delete_all ids [] ≡ []
unfolding delete_all delete
delete_all-nil [] = refl
delete_all-nil (id ∷ ids) = delete_all-nil ids

In-tail : (j id : ℕ) (ids : List ℕ) → ¬ (j ≡ id) → In j (id ∷ ids) → In j ids
In-tail j id ids h (inl e) = absurd (h e)
In-tail j id ids h (inr e) = e

In-delete :
    (id : ℕ) (ids : List ℕ) (l : Pending)
    → All (λ e. In e.0 (id ∷ ids)) l
    → All (λ e. In e.0 ids) (delete ℕ_discrete id l)
unfolding delete
In-delete id ids [] h = tt
In-delete id ids ((j, v) ∷ l) h = elim (ℕ_discrete j id) [
  | yes p ↦ rw (if_pos _ p) (In-delete id ids l h.1)
  | no p ↦ rw (if_neg _ p) (In-tail j id ids p h.0, In-delete id ids l h.1)
]

delete_all-keys : (ids : List ℕ) (l : Pending) → All (λ e. In e.0 ids) l → delete_all ids l ≡ []
unfolding delete_all
delete_all-keys [] [] h = refl
delete_all-keys [] (e ∷ l) h = absurd h.0
delete_all-keys (id ∷ ids) l h = delete_all-keys ids (delete ℕ_discrete id l) (In-delete id ids l h)

In-weaken :
    (id : ℕ) (ids : List ℕ) (l : Pending) → All (λ e. In e.0 ids) l → All (λ e. In e.0 (id ∷ ids)) l
In-weaken id ids [] h = tt
In-weaken id ids (e ∷ l) h = (inr h.0, In-weaken id ids l h.1)

pub In-keys : (l : Pending) → All (λ e. In e.0 (keys l)) l
In-keys [] = tt
In-keys (e ∷ l) = (inl refl, In-weaken e.0 (keys l) l (In-keys l))

-- What settling leaves alone.
abbrev pub Settles : {S : Type 0} → Pending → Client S → Client S → Type 0
Settles p c d =
    (q : ℕ) × (ts : List Timer) × (ss : List (ℕ × Result Json)) × (d
      ≡ record c { pending = p; queued_bytes = q; timers = ts; settled = ss })

module _ {S : Type 0} where
  settle-Settles :
      (id : ℕ) (r : Result Json) (c : Client S)
      → Settles (delete ℕ_discrete id c.pending) c (settle id r c)
  unfolding settle
  settle-Settles id r c = elim (Option-cases (get ℕ_discrete id c.pending)) [
    | inl e ↦ (
      c.queued_bytes,
      c.timers,
      c.settled,
      rw (
        e,
        settle,
        delete_absent ℕ_discrete id c.pending (Avoids_of_none ℕ_discrete id c.pending e),
      ),
    )
    | inr (item, e) ↦ (
      c.queued_bytes - body_bytes item.body,
      clear item.ticket c.timers,
      (item.ticket, r) ∷ c.settled,
      rw (e, settle),
    )
  ]

  settle_all-Settles :
      (ids : List ℕ) (error : Error) (c : Client S)
      → Settles (delete_all ids c.pending) c (settle_all ids error c)
  unfolding settle_all delete_all
  settle_all-Settles [] error c = (c.queued_bytes, c.timers, c.settled, refl)
  settle_all-Settles (id ∷ ids) error c =
      let (q, ts, ss, e) = settle-Settles id (err error) c in
      let (q', ts', ss', e') = settle_all-Settles ids error (settle id (err error) c) in
      (
        q',
        ts',
        ss',
        e'
            ∙ ap
                (λ (d : Client S). record d {
                  pending = delete_all ids d.pending;
                  queued_bytes = q';
                  timers = ts';
                  settled = ss';
                })
                e,
      )

  pub settle_all-keys :
      (error : Error) (c : Client S) → Settles [] c (settle_all (keys c.pending) error c)
  settle_all-keys error c =
      rw (← delete_all-keys (keys c.pending) c.pending (In-keys c.pending))
        (settle_all-Settles (keys c.pending) error c)

settle_ready_decided :
    (r : Ready) (error : Error) → is_waiting (settle_ready r (rejected error)) ≡ false
unfolding settle_ready
settle_ready_decided r error = ground arith

-- The state in which `finish` settles what is pending.
abbrev pub ended : {S : Type 0} → Error → Client S → Client S
ended error c = record c {
  closed = true;
  connect_timer = none;
  ready = settle_ready c.ready (rejected error);
}

module _ (P : Platform) where
  open P use {Socket}

  -- A second end changes nothing.
  pub finish_closed : (error : Error) (c : Client Socket) → c.closed ≡ true → finish P error c ≡ c
  unfolding finish
  finish_closed error c h = if_either (λ d. d ≡ c) c.closed (λ _. refl) (λ e. cc)

  -- A client that was open is closed, owes nothing, and sends nothing in the end.
  pub finish-ends :
      (error : Error) (c : Client Socket)
      → c.closed ≡ false
      → (c.initialized ≡ false → sends c.log ≡ [])
      → HasPhases (finish P error c)
  unfolding finish
  finish-ends error c o g =
      if_either HasPhases c.closed (λ e. cc)
        λ e.
          let (q, ts, ss, same) = settle_all-keys error (ended error c) in
          OnlyLogs-HasPhases _ _ (debug-OnlyLogs P _ _ _) (
            rw same (record {
              settled_all = λ _. refl;
              sent_all = λ _. tt;
              gate = g;
              undecided = settle_ready_decided c.ready error;
              deadline = refl;
            }))

  pub finish-HasPhases :
      (error : Error) (c : Client Socket) → HasPhases c → HasPhases (finish P error c)
  finish-HasPhases error c v = elim (Bool-cases c.closed) [
    | inl e ↦ subst HasPhases (sym (finish_closed error c e)) v
    | inr e ↦ finish-ends error c e v.gate
  ]

  pub fail-HasPhases :
      (error : Error) (c : Client Socket) → HasPhases c → HasPhases (fail P error c)
  unfolding fail
  fail-HasPhases error c v =
      if_either HasPhases c.closed (λ e. v)
        (λ e. OnlyLogs-HasPhases _ _ (report-OnlyLogs error _) (finish-HasPhases error c v))

  pub close-HasPhases : (c : Client Socket) → HasPhases c → HasPhases (close P c)
  unfolding close
  close-HasPhases c v = finish-HasPhases socket_closed c v
