-- ===== src/Timeline/Index.antt =====
-- The two indexes of `createTimeline`, its trimming and its start (priv/ui/js/timeline.js).
use wiregrid.Base.{
  ℕ, zero, suc, String, Bool, true, false, Option, none, some, List, [], ◌∷◌, ite, ltb,
  if◌then◌else◌, String_discrete, length, or_else,
}
use wiregrid.Base.JsMap.{JsMap, get, delete, set}
use wiregrid.Core.{clamp}
use wiregrid.Timeline.Types.{Node, Child, Amount, falsy, positive, negative, infinite, Timeline}
use wiregrid.Timeline.Dom.{remove_node, rows}

-- `clamp(Math.floor(Number(options.maxMessages) || 2000), 1, 20000)`.
unfoldable pub row_limit : Amount → ℕ
unfolding clamp
row_limit falsy = clamp 2000 1 20000
row_limit (positive n) = clamp n 1 20000
row_limit negative = 1
row_limit infinite = 20000

-- Equality of two optional texts, as `!==` has it for null, undefined and texts.
unfoldable pub same_text : Option String → Option String → Bool
same_text none none = true
same_text (some a) (some b) = ite (String_discrete a b) true false
same_text _ _ = false

-- `nonces.delete(nonce)` of `forget`, which spares a nonce that another row has taken.
unfoldable pub forget_nonce : String → Option String → JsMap String String → JsMap String String
forget_nonce id none nonces = nonces
forget_nonce id (some nonce) nonces =
    if same_text (get String_discrete nonce nonces) (some id)
    then delete String_discrete nonce nonces
    else nonces

unfoldable pub remember_nonce : String → Option String → JsMap String String → JsMap String String
remember_nonce id none nonces = nonces
remember_nonce id (some nonce) nonces = set String_discrete nonce id nonces

module _ {A : Type 0} where
  unfoldable pub forget : String → Node A → Timeline A → Timeline A
  forget id node t = record t {
    messages = delete String_discrete id t.messages;
    nonces = forget_nonce id node.nonce t.nonces;
  }

  unfoldable pub remember : Node A → Timeline A → Timeline A
  remember node t = record t {
    messages = set String_discrete node.message_id node t.messages;
    nonces = remember_nonce node.message_id node.nonce t.nonces;
  }

  unfoldable pub detach : Node A → Timeline A → Timeline A
  detach node t = record t { children = remove_node node.ref t.children }

  -- One round of `trim` forgets and detaches the first entry.
  unfoldable pub evict : JsMap String (Node A) → Timeline A → Timeline A
  unfolding forget detach
  evict [] t = t
  evict ((id, node) ∷ l) t = detach node (forget id node t)

  unfoldable pub trim_loop : ℕ → Timeline A → Timeline A
  trim_loop zero t = t
  trim_loop (suc fuel) t =
      let rest = trim_loop fuel (evict t.messages t) in
      if ltb t.limit (length t.messages) then rest else t

  -- Each round takes one entry, so as many rounds as there are entries are enough.
  unfoldable pub trim : Timeline A → Timeline A
  trim t = trim_loop (length t.messages) t

  -- The rows that are there at the start; of two with one id the later stays.
  unfoldable pub adopt : List (Node A) → Timeline A → Timeline A
  unfolding forget detach remember
  adopt [] t = t
  adopt (node ∷ l) t = elim (get String_discrete node.message_id t.messages) [
    | none ↦ adopt l (remember node t)
    | some old ↦ adopt l (remember node (detach old (forget node.message_id old t)))
  ]

  unfoldable pub create :
      Amount
      → Bool
      → List (Child A)
      → (role live : Option String) → (scroll_top next_ref : ℕ) → Timeline A
  create amount auto_scroll children role live scroll_top next_ref = trim (
      adopt (rows children) (record {
        limit = row_limit amount;
        auto_scroll = auto_scroll;
        children = children;
        scroll_top = scroll_top;
        role = some (or_else role "log");
        aria_live = some (or_else live "polite");
        previous_role = role;
        previous_live = live;
        messages = [];
        nonces = [];
        destroyed = false;
        next_ref = next_ref;
      }))
