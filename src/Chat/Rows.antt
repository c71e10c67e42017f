-- ===== src/Chat/Rows.antt =====
-- `appendMessage`, `upsertMessage`, `reconcileOptimistic` and `trimTimeline` (priv/ui/js/chat.js), on
-- the rows of a container, for messages that `renderMessage` renders; for others it throws before any
-- change. An element has a number, ever larger, as its identity.
use wiregrid.Base.{
  ℕ, zero, suc, ◌-◌, String, Bool, true, false, Option, none, some, List, [], ◌∷◌, ◌++◌, length,
  ite, if◌then◌else◌, or_else, String_discrete,
}
use wiregrid.Timeline.Types.{Node, Child, row, Message, Amount}
use wiregrid.Timeline.Dom.{remove_node, replace_node, rows}
use wiregrid.Timeline.Index.{row_limit, same_text}
use wiregrid.Timeline.Ops.{render}

pub record Board (A : Type 0) : Type 0 where
  pub children : List (Child A)
  pub next_ref : ℕ

-- What a script does with the messages of a container. The limit is `options.maxMessages`.
pub data Change (A : Type 0) : Type 0 where
  appended upserted : Message A → Change A
  reconciled : Option String → Message A → Change A

-- `String(value)` of a text or undefined.
abbrev pub printed : Option String → String
printed value = or_else value "undefined"

module _ {A : Type 0} where
  -- `[data-message-id="…"]`.
  unfoldable pub has_id : String → Node A → Bool
  has_id id n = ite (String_discrete n.message_id id) true false

  -- `[data-wg-nonce="…"]`.
  unfoldable pub has_nonce : String → Node A → Bool
  unfolding same_text
  has_nonce nonce n = same_text n.nonce (some nonce)

  -- `container.querySelector`: the first in the order of the document.
  unfoldable pub find_node : (Node A → Bool) → List (Node A) → Option (Node A)
  find_node f [] = none
  find_node f (n ∷ l) = let rest = find_node f l in if f n then some n else rest

  unfoldable pub remove_first : ℕ → List (Node A) → List (Child A) → List (Child A)
  unfolding remove_node
  remove_first zero nodes l = l
  remove_first (suc n) [] l = l
  remove_first (suc n) (x ∷ nodes) l = remove_first n nodes (remove_node x.ref l)

  unfoldable pub trim_timeline : Amount → List (Child A) → List (Child A)
  unfolding remove_first row_limit rows
  trim_timeline amount l = remove_first (length (rows l) - row_limit amount) (rows l) l

  -- `if (old) old.replaceWith(node); else container.append(node);`
  unfoldable pub put_node : Option (Node A) → Node A → List (Child A) → List (Child A)
  unfolding replace_node
  put_node none node l = l ++ row node ∷ []
  put_node (some old) node l = replace_node old.ref node l

  unfoldable pub append_message : Amount → String → Message A → Board A → Board A
  unfolding trim_timeline render
  append_message amount uid message b = record {
    children = trim_timeline amount (b.children ++ row (render message uid b.next_ref) ∷ []);
    next_ref = suc b.next_ref;
  }

  unfoldable pub upsert_message : Amount → String → Message A → Board A → Board A
  unfolding trim_timeline put_node find_node has_id render rows
  upsert_message amount uid message b =
      let old = find_node (has_id (printed message.id)) (rows b.children) in
      record {
        children = trim_timeline amount (put_node old (render message uid b.next_ref) b.children);
        next_ref = suc b.next_ref;
      }

  unfoldable pub reconcile_optimistic :
      Amount → String → Option String → Message A → Board A → Board A
  unfolding trim_timeline put_node find_node has_nonce render rows
  reconcile_optimistic amount uid nonce message b =
      let old = find_node (has_nonce (printed nonce)) (rows b.children) in
      record {
        children = trim_timeline amount (put_node old (render message uid b.next_ref) b.children);
        next_ref = suc b.next_ref;
      }

  -- A change with what `uid("message")` would return.
  unfoldable pub change : Amount → String → Change A → Board A → Board A
  unfolding append_message upsert_message reconcile_optimistic
  change amount uid (appended message) b = append_message amount uid message b
  change amount uid (upserted message) b = upsert_message amount uid message b
  change amount uid (reconciled nonce message) b = reconcile_optimistic amount uid nonce message b

  unfoldable pub change_all : Amount → List (String × Change A) → Board A → Board A
  unfolding change
  change_all amount [] b = b
  change_all amount ((uid, e) ∷ l) b = change_all amount l (change amount uid e b)
