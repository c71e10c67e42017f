-- ===== src/Chat/Jumping.antt =====
-- `jumpToMessage` (priv/ui/js/chat.js): the row that is jumped to, its focus and its mark, which a
-- timer takes away.
use wiregrid.Base.{
  ℕ, zero, suc, String, Bool, true, false, Option, none, some, List, [], ◌∷◌, ◌++◌, ite, ℕ_discrete,
  or_else,
}
use wiregrid.Timeline.Types.{Node, Child}
use wiregrid.Timeline.Dom.{rows}
use wiregrid.Chat.Rows.{has_id, find_node}

-- A timer: the element whose mark it takes away, and its delay in milliseconds.
pub record Timer : Type 0 where
  pub element : ℕ
  pub delay : ℕ

-- The elements that are marked as highlighted, the one with the focus, those that were scrolled to,
-- and the timers.
pub record Page (A : Type 0) : Type 0 where
  pub children : List (Child A)
  pub highlighted : List ℕ
  pub focused : Option ℕ
  pub scrolled : List ℕ
  pub timers : List Timer

pub data PageEvent : Type 0 where
  -- With the duration, if it is given.
  jump_called : String → Option ℕ → PageEvent
  timer_fired : ℕ → PageEvent

unfoldable pub unmark : ℕ → List ℕ → List ℕ
unmark r [] = []
unmark r (x ∷ l) = ite (ℕ_discrete x r) (unmark r l) (x ∷ unmark r l)

-- The timer that fires and the others.
unfoldable pub take_timer : ℕ → List Timer → Option (ℕ × List Timer)
take_timer i [] = none
take_timer zero (r ∷ l) = some (r.element, l)
take_timer (suc i) (r ∷ l) = elim (take_timer i l) [
  | none ↦ none
  | some (found, rest) ↦ some (found, r ∷ rest)
]

module _ {A : Type 0} where
  -- The result, and the page after it.
  unfoldable pub mark_node : ℕ → Option (Node A) → Page A → Bool × Page A
  unfolding unmark
  mark_node duration none p = (false, p)
  mark_node duration (some n) p = (
    true,
    record p {
      scrolled = p.scrolled ++ n.ref ∷ [];
      highlighted = n.ref ∷ unmark n.ref p.highlighted;
      focused = some n.ref;
      timers = p.timers ++ record { element = n.ref; delay = duration } ∷ [];
    },
  )

  unfoldable pub jump_to_message : String → Option ℕ → Page A → Bool × Page A
  unfolding find_node has_id rows mark_node
  jump_to_message id duration p =
      mark_node (or_else duration 1400) (find_node (has_id id) (rows p.children)) p

  unfoldable pub end_highlight : Option (ℕ × List Timer) → Page A → Page A
  unfolding unmark
  end_highlight none p = p
  end_highlight (some (r, rest)) p = record p {
    highlighted = unmark r p.highlighted;
    timers = rest;
  }

  unfoldable pub page_step : PageEvent → Page A → Page A
  unfolding jump_to_message end_highlight take_timer
  page_step (jump_called id duration) p = (jump_to_message id duration p).1
  page_step (timer_fired i) p = end_highlight (take_timer i p.timers) p

  unfoldable pub page_run : List PageEvent → Page A → Page A
  unfolding page_step
  page_run [] p = p
  page_run (e ∷ l) p = page_run l (page_step e p)
