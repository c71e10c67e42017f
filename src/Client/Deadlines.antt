-- ===== src/Client/Deadlines.antt =====
-- A request's timer (priv/ui/js/client.js): when it fires, its request is pending.
use wiregrid.Base.{
  ℕ, ◌≡◌, refl, sym, some, List, [], ◌∷◌, arith, if_neg, ℕ_discrete, map, total, ◌≤◌,
}
use wiregrid.Base.JsMap.{get, Distinct, All-get}
use wiregrid.Json.{Json}
use wiregrid.Client.Types.{Result, Item, Timer, Client}
use wiregrid.Client.Core.{clear, settle}
use wiregrid.Client.Steps.{find_timer}
use wiregrid.Client.Entries.{Pending, timer_of, holds, holds_pos}
use wiregrid.Client.Books.{HasBooks}

clear-clear : (h : ℕ) (ts : List Timer) → clear h (clear h ts) ≡ clear h ts
unfolding clear
clear-clear h [] = refl
clear-clear h (t ∷ ts) = ground (arith, clear-clear h ts)

-- That the timer is off when its callback runs makes no difference to `settle`.
pub settle_fired :
    {S : Type 0} (id : ℕ) (item : Item) (r : Result Json) (c : Client S)
    → get ℕ_discrete id c.pending ≡ some item
    → settle id r (record c { timers = clear item.ticket c.timers }) ≡ settle id r c
unfolding settle
settle_fired id item r c e = rw (e, settle, clear-clear)

-- The timer found under a handle is that of a pending request.
find_timer_entry :
    (h d : ℕ) (l : Pending) (t : Timer)
    → Distinct l
    → find_timer h (map (timer_of d) l) ≡ some t
    → (item : Item) × (get ℕ_discrete t.id l ≡ some item) × (item.ticket ≡ h) × (item.op ≡ t.op)
unfolding find_timer get
find_timer_entry h d [] t u e = absurd (ground arith)
find_timer_entry h d ((j, v) ∷ l) t u e = elim (ℕ_discrete v.ticket h) [
  | yes p ↦ (v, ground arith, p, ground arith)
  | no p ↦
      let (item, there, same, op) = find_timer_entry h d l t u.1 (ground arith) in
      let apart : ¬ (t.id ≡ j) = All-get ℕ_discrete (λ f. ¬ (f.0 ≡ j)) t.id l u.0 there in
      (item, rw (if_neg _ (λ (q : j ≡ t.id). apart (sym q))) there, same, op)
]

pub find_timer-get :
    {S : Type 0} (h : ℕ) (c : Client S) (t : Timer)
    → HasBooks c
    → find_timer h c.timers ≡ some t
    → (item : Item) × (get ℕ_discrete t.id c.pending ≡ some item)
      × (item.ticket ≡ h)
      × (item.op ≡ t.op)
find_timer-get h c t v e =
    find_timer_entry h c.request_timeout c.pending t v.distinct (rw (← v.timed) e)

find_timer_of :
    (id d : ℕ) (item : Item) (l : Pending)
    → Distinct l
    → ((t : ℕ) → total (holds t) l ≤ 1)
    → get ℕ_discrete id l ≡ some item
    → find_timer item.ticket (map (timer_of d) l) ≡ some (timer_of d (id, item))
unfolding find_timer get
find_timer_of id d item [] u h e = absurd (ground arith)
find_timer_of id d item ((j, v) ∷ l) u h e = elim (ℕ_discrete j id) [
  | yes p ↦ let same : v ≡ item = ground arith in ground arith
  | no p ↦
      let there : get ℕ_discrete id l ≡ some item = ground arith in
      let rest = find_timer_of id d item l u.1 (λ t. omega (arith, h t)) there in
      let apart : ¬ (v.ticket ≡ item.ticket) =
        λ q. ground (arith, h item.ticket, holds_pos id item l there) in
      rw (if_neg _ apart) rest
]

-- A pending request has its timer.
pub find_timer_pending :
    {S : Type 0} (id : ℕ) (item : Item) (c : Client S)
    → HasBooks c
    → get ℕ_discrete id c.pending ≡ some item
    → find_timer item.ticket c.timers ≡ some (timer_of c.request_timeout (id, item))
find_timer_pending id item c v e = rw v.timed (
    find_timer_of id c.request_timeout item c.pending v.distinct (λ t. ground (arith, v.promised t))
      e)
