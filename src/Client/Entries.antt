-- ===== src/Client/Entries.antt =====
-- The entries of `pending` (priv/ui/js/client.js): what is counted over them, and how deleting,
-- sending and adding an entry changes it.
use wiregrid.Base.{
  ℕ, ◌+◌, ◌≤◌, ◌≡◌, refl, ◌≢◌, some, [], ◌∷◌, ◌++◌, map, arith, if_pos, if_neg, if◌then◌else◌, ◌==◌,
  ℕ_discrete, length, All, total, All-append, sym,
}
use wiregrid.Base.JsMap.{JsMap, get, delete, Distinct, delete_absent}
use wiregrid.Client.Types.{sent, Item, Timer}
use wiregrid.Client.Core.{clear, mark_sent, body_bytes}

abbrev pub Pending : Type 0
Pending = JsMap ℕ Item

-- The bytes of an entry that are still to be sent.
abbrev pub entry_bytes : ℕ × Item → ℕ
entry_bytes e = body_bytes e.1.body

-- 1 for the entry whose promise is `t`.
abbrev pub holds : ℕ → ℕ × Item → ℕ
holds t e = if e.1.ticket == t then 1 else 0

abbrev pub timer_of : ℕ → ℕ × Item → Timer
timer_of delay e = record { handle = e.1.ticket; id = e.0; op = e.1.op; delay = delay }

abbrev pub IsSent : ℕ × Item → Type 0
IsSent e = e.1.body ≡ sent

pub length-delete_le : (k : ℕ) (l : Pending) → length (delete ℕ_discrete k l) ≤ length l
unfolding delete
length-delete_le k [] = omega arith
length-delete_le k ((j, v) ∷ l) = ground (arith, length-delete_le k l)

-- The timers of the entries.
clear_absent :
    (t d : ℕ) (l : Pending)
    → total (holds t) l ≡ 0
    → clear t (map (timer_of d) l) ≡ map (timer_of d) l
unfolding clear
clear_absent t d [] h = refl
clear_absent t d ((j, v) ∷ l) h = ground (arith, clear_absent t d l)

pub holds_pos :
    (k : ℕ) (item : Item) (l : Pending)
    → get ℕ_discrete k l ≡ some item
    → 1 ≤ total (holds item.ticket) l
unfolding get
holds_pos k item [] e = absurd (ground arith)
holds_pos k item ((j, v) ∷ l) e = ground (arith, holds_pos k item l)

pub clear-delete :
    (k d : ℕ) (item : Item) (l : Pending)
    → Distinct l
    → ((t : ℕ) → total (holds t) l ≤ 1)
    → get ℕ_discrete k l ≡ some item
    → clear item.ticket (map (timer_of d) l) ≡ map (timer_of d) (delete ℕ_discrete k l)
unfolding get delete clear
clear-delete k d item [] u h e = absurd (ground arith)
clear-delete k d item ((j, v) ∷ l) u h e = elim (ℕ_discrete j k) [
  | yes p ↦
      let gone : delete ℕ_discrete k l ≡ l = delete_absent ℕ_discrete k l (rw (← p) u.0) in
      let same : v ≡ item = ground arith in
      rw (if_pos _ p, gone) (ground (arith, h v.ticket, clear_absent item.ticket d l))
  | no p ↦
      let there : get ℕ_discrete k l ≡ some item = ground arith in
      let rest = clear-delete k d item l u.1 (λ t. omega (arith, h t)) there in
      rw (if_neg _ p) (ground (arith, h item.ticket, holds_pos k item l there, rest))
]

-- Marking an entry as sent.
mark_sent_absent : (k : ℕ) (l : Pending) → All (λ e. e.0 ≢ k) l → mark_sent k l ≡ l
unfolding mark_sent
mark_sent_absent k [] h = refl
mark_sent_absent k ((j, v) ∷ l) h = ground (arith, mark_sent_absent k l h.1)

pub total-mark_sent :
    (f : ℕ × Item → ℕ) (k : ℕ) (item : Item) (l : Pending)
    → Distinct l
    → get ℕ_discrete k l ≡ some item
    → total f (mark_sent k l) + f (k, item) ≡ total f l + f (k, record item { body = sent })
unfolding get mark_sent
total-mark_sent f k item [] d e = absurd (ground arith)
total-mark_sent f k item ((j, v) ∷ l) d e = elim (ℕ_discrete j k) [
  | yes p ↦
      let gone : mark_sent k l ≡ l = mark_sent_absent k l (rw (← p) d.0) in
      let same : v ≡ item = ground arith in rw (if_pos _ p, gone, p, same) (omega arith)
  | no p ↦ rw (if_neg _ p) (omega (arith, total-mark_sent f k item l d.1 (ground arith)))
]

pub total-mark_sent_same :
    (f : ℕ × Item → ℕ) (k : ℕ) (l : Pending)
    → ((e : ℕ × Item) → f (e.0, record (e.1) { body = sent }) ≡ f e)
    → total f (mark_sent k l) ≡ total f l
unfolding mark_sent
total-mark_sent_same f k [] h = refl
total-mark_sent_same f k ((j, v) ∷ l) h = ground (arith, h (j, v), total-mark_sent_same f k l h)

pub map-mark_sent : (d k : ℕ) (l : Pending) → map (timer_of d) (mark_sent k l) ≡ map (timer_of d) l
unfolding mark_sent
map-mark_sent d k [] = refl
map-mark_sent d k ((j, v) ∷ l) = ground (arith, map-mark_sent d k l)

pub length-mark_sent : (k : ℕ) (l : Pending) → length (mark_sent k l) ≡ length l
unfolding mark_sent
length-mark_sent k [] = refl
length-mark_sent k ((j, v) ∷ l) = ground (arith, length-mark_sent k l)

-- What is said of the keys alone.
pub All-mark_sent :
    (P : ℕ → Type 0) (k : ℕ) (l : Pending) → All (λ e. P e.0) l → All (λ e. P e.0) (mark_sent k l)
unfolding mark_sent
All-mark_sent P k [] h = tt
All-mark_sent P k ((j, v) ∷ l) h = elim (ℕ_discrete j k) [
  | yes p ↦ rw (if_pos _ p) (h.0, All-mark_sent P k l h.1)
  | no p ↦ rw (if_neg _ p) (h.0, All-mark_sent P k l h.1)
]

pub mark_sent-Distinct : (k : ℕ) (l : Pending) → Distinct l → Distinct (mark_sent k l)
unfolding mark_sent
mark_sent-Distinct k [] h = tt
mark_sent-Distinct k ((j, v) ∷ l) h = elim (ℕ_discrete j k) [
  | yes p ↦ rw (if_pos _ p) (All-mark_sent (λ i. i ≢ j) k l h.0, mark_sent-Distinct k l h.1)
  | no p ↦ rw (if_neg _ p) (All-mark_sent (λ i. i ≢ j) k l h.0, mark_sent-Distinct k l h.1)
]

-- Adding an entry at the end.
pub append-Distinct :
    (l : Pending) (e : ℕ × Item) → Distinct l → All (λ f. f.0 ≢ e.0) l → Distinct (l ++ e ∷ [])
append-Distinct [] e h a = (tt, tt)
append-Distinct (f ∷ l) e h a = (
  All-append (λ g. g.0 ≢ f.0) l (e ∷ []) h.0 ((λ p. a.0 (sym p)), tt),
  append-Distinct l e h.1 a.1,
)
