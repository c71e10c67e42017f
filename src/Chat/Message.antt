-- ===== src/Chat/Message.antt =====
-- `renderMessage` and its parts (priv/ui/js/chat.js). What is printed of a message is a text, a number
-- of reactions too.
use wiregrid.Base.{Bool, Option, none, some, List, [], ◌∷◌, ◌++◌, if◌then◌else◌, or_else}
use wiregrid.Base.Units.{Units, codes}
use wiregrid.Chat.Elements.{Head, Tree, element, Forest, nil, cons, text, join, each}

pub record Reply : Type 0 where
  pub id : Option Units
  pub author : Option Units
  pub body : Option Units

pub record Reaction : Type 0 where
  pub emoji : Option Units
  pub count : Option Units
  pub mine : Bool

-- `reactions` is none if it is not an array.
pub record ChatMessage : Type 0 where
  pub id : Option Units
  pub nonce : Option Units
  pub compact : Bool
  pub avatar_url : Option Units
  pub author : Option Units
  pub time : Option Units
  pub body : Option Units
  pub reply : Option Reply
  pub reactions : Option (List Reaction)

-- `options.actions`: false, undefined or an array.
pub data Actions : Type 0 where
  hidden usual : Actions
  chosen : List Units → Actions

-- A text that counts as true.
unfoldable pub truthy : Option Units → Option Units
truthy none = none
truthy (some []) = none
truthy (some (c ∷ s)) = some (c ∷ s)

unfoldable pub reply_text : Reply → Units
unfolding truthy
reply_text reply =
    elim (truthy reply.author) [ none ↦ [] | some author ↦ author ++ codes ": " ]
    ++ or_else reply.body []

unfoldable pub render_reply : Reply → Head
unfolding reply_text
render_reply reply = record (text "button" (reply_text reply) ("wg-reply-preview" ∷ [])) {
  attributes = ("type", codes "button") ∷ [];
  jump = reply.id;
}

unfoldable pub render_reaction : Reaction → Head
render_reaction reaction =
    record (text "button"
      (or_else reaction.emoji [] ++ (codes " " ++ or_else reaction.count (codes "0")))
      ("wg-reaction" ∷ [])) {
        reaction = some (or_else reaction.emoji []);
        attributes =
            ("type", codes "button")
            ∷ ("aria-pressed", if reaction.mine then codes "true" else codes "false")
            ∷ [];
      }

unfoldable pub render_action : Units → Head
render_action action =
    record (text "button" action ("wg-button" ∷ "wg-button--ghost" ∷ "wg-button--sm" ∷ [])) {
      attributes = ("type", codes "button") ∷ [];
      action = some action;
    }

abbrev pub usual_actions : List Units
usual_actions = codes "react" ∷ codes "reply" ∷ codes "more" ∷ []

-- The buttons under `options.actions`.
unfoldable pub actions_of : Actions → List Units
actions_of hidden = []
actions_of usual = usual_actions
actions_of (chosen l) = l

unfoldable pub render_actions : Actions → Forest
unfolding each render_action actions_of
render_actions hidden = nil
render_actions actions =
    cons
      (element (text "div" [] ("wg-message-actions" ∷ []))
        (each render_action (actions_of actions)))
      nil

unfoldable pub render_reactions : Option (List Reaction) → Forest
unfolding each render_reaction
render_reactions (some (r ∷ l)) =
    cons (element (text "div" [] ("wg-reactions" ∷ [])) (each render_reaction (r ∷ l))) nil
render_reactions _ = nil

unfoldable pub avatar : Option Units → Head
unfolding truthy
avatar url = elim (truthy url) [
  | none ↦ text "div" [] ("wg-avatar" ∷ [])
  | some src ↦ record (text "img" [] ("wg-avatar" ∷ [])) {
    attributes = ("src", src) ∷ ("alt", []) ∷ ("loading", codes "lazy") ∷ [];
  }
]

-- The author and, if there is one, the time.
unfoldable pub message_head : ChatMessage → Forest
unfolding truthy
message_head message =
    cons (element (text "span" (or_else message.author (codes "Unknown")) ("wg-author" ∷ [])) nil)
      (elim (truthy message.time) [
        | none ↦ nil
        | some time ↦ cons (element (text "time" time ("wg-time" ∷ [])) nil) nil
      ])

unfoldable pub reply_preview : Option Reply → Forest
unfolding render_reply
reply_preview none = nil
reply_preview (some reply) = cons (element (render_reply reply) nil) nil

-- The children of the content element.
unfoldable pub message_content : ChatMessage → Forest
unfolding message_head reply_preview render_reactions join
message_content message =
    cons (element (text "div" [] ("wg-message-head" ∷ [])) (message_head message)) (
      join (reply_preview message.reply) (
        cons (element (text "div" (or_else message.body []) ("wg-message-body" ∷ [])) nil)
          (render_reactions message.reactions)))

-- The row itself; `uid` is what `uid("message")` would return.
unfoldable pub article : Units → ChatMessage → Head
article uid message =
    record (text "article" []
      ("wg-message" ∷ (if message.compact then "wg-message--compact" ∷ [] else []))) {
        message_id = some (or_else message.id uid);
        nonce = message.nonce;
        attributes = ("tabindex", codes "-1") ∷ [];
      }

unfoldable pub render_message : Units → Actions → ChatMessage → Tree
unfolding article avatar message_content render_actions
render_message uid actions message = element (article uid message) (
    cons (element (avatar message.avatar_url) nil) (
      cons (element (text "div" [] ("wg-message__content" ∷ [])) (message_content message))
        (render_actions actions)))
