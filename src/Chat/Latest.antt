-- ===== src/Chat/Latest.antt =====
-- The changes of a container on a plain list of its rows (priv/ui/js/chat.js).
use wiregrid.Base.{
  ℕ, zero, suc, ◌-◌, ◌<◌, ◌≡◌, String, Bool, false, List, [], ◌∷◌, length, All, arith,
  if◌then◌else◌,
}
use wiregrid.Timeline.Types.{Node, Message}
use wiregrid.Timeline.Dom.{rows}
use wiregrid.Timeline.Ops.{render}
use wiregrid.Timeline.Rows.{DistinctRefs}
use wiregrid.Chat.Rows.{Board, Change, appended, upserted, reconciled, has_id, has_nonce, printed}

module _ {A : Type 0} where
  -- A row takes the place of the first that matches, or the last place.
  abbrev pub put : (Node A → Bool) → Node A → List (Node A) → List (Node A)
  put f node [] = node ∷ []
  put f node (n ∷ l) = if f n then node ∷ l else n ∷ put f node l

  abbrev pub skip : ℕ → List (Node A) → List (Node A)
  skip zero l = l
  skip (suc n) [] = []
  skip (suc n) (x ∷ l) = skip n l

  -- As many rows as fit, the last ones.
  abbrev pub latest : ℕ → List (Node A) → List (Node A)
  latest limit l = skip (length l - limit) l

  -- Which row a change replaces, and with what.
  abbrev pub wanted : Change A → Node A → Bool
  wanted (appended message) n = false
  wanted (upserted message) n = has_id (printed message.id) n
  wanted (reconciled nonce message) n = has_nonce (printed nonce) n

  abbrev pub message_of : Change A → Message A
  message_of (appended message) = message
  message_of (upserted message) = message
  message_of (reconciled _ message) = message

  -- The changes on a list of rows, the elements numbered from `ref`.
  abbrev pub list_all : ℕ → ℕ → List (String × Change A) → List (Node A) → List (Node A)
  list_all limit ref [] l = l
  list_all limit ref ((uid, e) ∷ es) l =
      list_all limit (suc ref) es (latest limit (put (wanted e) (render (message_of e) uid ref) l))

  -- The elements of the rows are different and older than the next.
  abbrev pub HasRefs : Board A → Type 0
  HasRefs b = DistinctRefs (rows b.children) × All (λ n. n.ref < b.next_ref) (rows b.children)

  pub All-skip : (P : Node A → Type 0) (n : ℕ) (l : List (Node A)) → All P l → All P (skip n l)
  All-skip P zero l h = h
  All-skip P (suc n) [] h = tt
  All-skip P (suc n) (x ∷ l) h = All-skip P n l h.1

  pub skip-DistinctRefs : (n : ℕ) (l : List (Node A)) → DistinctRefs l → DistinctRefs (skip n l)
  skip-DistinctRefs zero l h = h
  skip-DistinctRefs (suc n) [] h = tt
  skip-DistinctRefs (suc n) (x ∷ l) h = skip-DistinctRefs n l h.1

  pub length-skip : (n : ℕ) (l : List (Node A)) → length (skip n l) ≡ length l - n
  length-skip zero l = omega arith
  length-skip (suc n) [] = omega arith
  length-skip (suc n) (x ∷ l) = omega (arith, length-skip n l)
