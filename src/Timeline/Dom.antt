-- ===== src/Timeline/Dom.antt =====
-- The rows of the container in the document (priv/ui/js/timeline.js).
use wiregrid.Base.{ℕ, List, [], ◌∷◌, ite, ℕ_discrete}
use wiregrid.Timeline.Types.{Node, Child, row, other}

module _ {A : Type 0} where
  -- The document: `node.remove()` and `old.replaceWith(node)`.
  unfoldable pub remove_node : ℕ → List (Child A) → List (Child A)
  remove_node r [] = []
  remove_node r (row n ∷ l) = ite (ℕ_discrete n.ref r) (remove_node r l) (row n ∷ remove_node r l)
  remove_node r (other k ∷ l) = other k ∷ remove_node r l

  unfoldable pub replace_node : ℕ → Node A → List (Child A) → List (Child A)
  replace_node r node [] = []
  replace_node r node (row n ∷ l) =
      ite (ℕ_discrete n.ref r) (row node ∷ replace_node r node l) (row n ∷ replace_node r node l)
  replace_node r node (other k ∷ l) = other k ∷ replace_node r node l

  -- `container.querySelectorAll(".wg-message[data-message-id]")`.
  unfoldable pub rows : List (Child A) → List (Node A)
  rows [] = []
  rows (row n ∷ l) = n ∷ rows l
  rows (other k ∷ l) = rows l
