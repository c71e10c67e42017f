-- ===== src/Global/Messages.antt =====
-- `WG.appendMessage` and `WG.jumpToMessage` of priv/ui/wiregrid.js.
use wiregrid.Base.{
  ℕ, ◌≢◌, arith, String, Bool, true, false, ◌≡◌, refl, Option, none, some, List, [], ◌∷◌, ◌++◌,
  or_else,
}
use wiregrid.Base.Units.{Units}
use wiregrid.Timeline.Types.{Node}
use wiregrid.Timeline.Dom.{rows}
use wiregrid.Chat.Elements.{Head, Tree, element, nil, cons, text}
use wiregrid.Chat.Message.{truthy}
use wiregrid.Chat.Rows.{has_id, find_node}
use wiregrid.Chat.Jumping.{Timer, Page, unmark, mark_node, jump_to_message}

pub record ScriptMessage : Type 0 where
  pub id : Option Units
  pub author : Option Units
  pub body : Option Units

-- `value || ""`.
unfoldable pub shown : Option Units → Units
unfolding truthy
shown value = or_else (truthy value) []

unfoldable pub script_row : ScriptMessage → Head
unfolding shown
script_row message = record (text "article" [] ("wg-message" ∷ [])) {
  message_id = some (shown message.id);
}

-- The article that is appended.
unfoldable pub script_article : ScriptMessage → Tree
unfolding shown script_row
script_article message = element (script_row message) (
    cons
      (element (text "div" [] ("wg-message__content" ∷ [])) (
        cons (element (text "span" (shown message.author) ("wg-author" ∷ [])) nil)
          (cons (element (text "div" (shown message.body) ("wg-message-body" ∷ [])) nil) nil)))
      nil)

module _ {A : Type 0} where
  unfoldable pub script_mark : Option (Node A) → Page A → Bool × Page A
  unfolding unmark
  script_mark none p = (false, p)
  script_mark (some n) p = (
    true,
    record p {
      scrolled = p.scrolled ++ n.ref ∷ [];
      highlighted = n.ref ∷ unmark n.ref p.highlighted;
      timers = p.timers ++ record { element = n.ref; delay = 1400 } ∷ [];
    },
  )

  unfoldable pub script_jump : String → Page A → Bool × Page A
  unfolding script_mark find_node has_id rows
  script_jump id p = script_mark (find_node (has_id id) (rows p.children)) p

  -- The jump of the script gives the answer of `jumpToMessage` of the module, called without a
  -- duration or with one of 1400 ms, and leaves the page as that does, with the same timer, but for the
  -- focus, which it does not move. With any other duration it leaves another page, if there is a row.
  pub script_jump-jump_to_message :
      (id : String) (p : Page A)
      → ((script_jump id p).0 ≡ (jump_to_message id none p).0)
        × ((script_jump id p).1 ≡ record ((jump_to_message id none p).1) { focused = p.focused })
        × (jump_to_message id (some 1400) p ≡ jump_to_message id none p)
        × ((duration : ℕ)
            → duration ≢ 1400
            → (jump_to_message id none p).0 ≡ true
            → (jump_to_message id (some duration) p).1.timers ≢ (script_jump id p).1.timers)
  unfolding script_jump jump_to_message
  script_jump-jump_to_message id p = same (find_node (has_id id) (rows p.children))
    where
      other_delay :
          (n : Node A) (duration : ℕ) (l : List Timer)
          → duration ≢ 1400
          → l ++ record { element = n.ref; delay = duration } ∷ []
            ≢ l ++ record { element = n.ref; delay = 1400 } ∷ []
      other_delay n duration [] h e = absurd (h (ground arith))
      other_delay n duration (x ∷ l) h e = other_delay n duration l h (ground arith)

      same :
          (found : Option (Node A))
          → ((script_mark found p).0 ≡ (mark_node 1400 found p).0)
            × ((script_mark found p).1
                ≡ record ((mark_node 1400 found p).1) { focused = p.focused })
            × (mark_node 1400 found p ≡ mark_node 1400 found p)
            × ((duration : ℕ)
                → duration ≢ 1400
                → (mark_node 1400 found p).0 ≡ true
                → (mark_node duration found p).1.timers ≢ (script_mark found p).1.timers)
      same none = (refl, refl, refl, λ duration h e. absurd (ground arith))
      same (some n) = (refl, refl, refl, λ duration h e. other_delay n duration p.timers h)
