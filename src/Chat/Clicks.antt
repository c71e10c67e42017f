-- ===== src/Chat/Clicks.antt =====
-- The click handler of `bindChatActions` (priv/ui/js/chat.js). A click comes with its target and the
-- ancestors of that, the nearest first.
use wiregrid.Base.{Bool, Option, none, some, List, [], ◌∷◌, ◌++◌, if◌then◌else◌}
use wiregrid.Base.Units.{Units}
use wiregrid.Chat.Elements.{Head, has_class}

-- What the handler calls: `jumpToMessage`, `handlers.reaction` and `handlers.action`, these with the
-- element of the message.
pub data ChatCall : Type 0 where
  jumped : Units → ChatCall
  reacted acted : Units → Option Head → ChatCall

-- The handlers that are given.
pub record Handlers : Type 0 where
  pub reaction : Bool
  pub action : Bool

-- An element that `closest` found: the value of its data attribute, and itself with its ancestors.
pub record Found : Type 0 where
  pub value : Units
  pub path : List Head

-- `closest("[data-…]")`.
unfoldable pub closest_data : (Head → Option Units) → List Head → Option Found
closest_data data_of [] = none
closest_data data_of (h ∷ up) = elim (data_of h) [
  | none ↦ closest_data data_of up
  | some v ↦ some (record { value = v; path = h ∷ up })
]

-- `closest(".wg-message")`.
unfoldable pub closest_message : List Head → Option Head
unfolding has_class
closest_message [] = none
closest_message (h ∷ up) =
    let above = closest_message up in if has_class "wg-message" h.classes then some h else above

unfoldable pub call_handler : Bool → (Units → Option Head → ChatCall) → Option Found → List ChatCall
unfolding closest_message
call_handler given call none = []
call_handler given call (some found) =
    if given then call found.value (closest_message found.path) ∷ [] else []

unfoldable pub handle_others : Handlers → List Head → List ChatCall
unfolding closest_data call_handler
handle_others handlers path =
    call_handler handlers.reaction reacted (closest_data (λ h. h.reaction) path)
    ++ call_handler handlers.action acted (closest_data (λ h. h.action) path)

unfoldable pub on_click : Handlers → List Head → List ChatCall
unfolding handle_others closest_data
on_click handlers path = elim (closest_data (λ h. h.jump) path) [
  | some found ↦ jumped found.value ∷ []
  | none ↦ handle_others handlers path
]
