-- ===== src/Chat/Reached.antt =====
-- Every action, reaction and reply of a message can be clicked (priv/ui/js/chat.js).
use wiregrid.Base.{
  true, ◌≡◌, refl, sym, subst, ◌∙◌, ap, inl, inr, some, List, [], ◌∷◌, All, All-map, if◌then◌else◌,
  or_else,
}
use wiregrid.Base.Units.{Units, same_units}
use wiregrid.Chat.Elements.{
  Head, Forest, nil, cons, element, text, each, join, has_class, Somewhere, SomewhereIn,
}
use wiregrid.Chat.Message.{
  Reply, Reaction, ChatMessage, Actions, chosen, hidden, usual, render_reply, render_reaction,
  render_action, actions_of, render_actions, render_reactions, reply_preview, message_content,
  article, render_message,
}
use wiregrid.Chat.Clicks.{ChatCall, jumped, reacted, acted, Handlers, closest_message, on_click}
use wiregrid.Chat.Buttons.{
  Among, each-Among, IsPlain, reply_click, reaction_click, action_click, bar, box, body_of,
}

each-Somewhere :
    {X : Type 0} (C : List Head → Type 0) (up : List Head) (f : X → Head) (x : X) (l : List X)
    → C (f x ∷ up)
    → Among (λ y. x ≡ y) l
    → SomewhereIn C up (each f l)
unfolding each Somewhere
each-Somewhere C up f x [] c m = m
each-Somewhere C up f x (y ∷ l) c (inl e) = inl (inl (subst (λ z. C (f z ∷ up)) e c))
each-Somewhere C up f x (y ∷ l) c (inr m) = inr (each-Somewhere C up f x l c m)

join_right :
    (C : List Head → Type 0) (up : List Head) (f g : Forest)
    → SomewhereIn C up g
    → SomewhereIn C up (join f g)
unfolding join Somewhere
join_right C up nil g h = h
join_right C up (cons t f) g h = inr (join_right C up f g h)

join_left :
    (C : List Head → Type 0) (up : List Head) (f g : Forest)
    → SomewhereIn C up f
    → SomewhereIn C up (join f g)
unfolding join Somewhere
join_left C up nil g h = absurd h
join_left C up (cons t f) g (inl h) = inl h
join_left C up (cons t f) g (inr h) = inr (join_left C up f g h)

in_actions :
    (C : List Head → Type 0) (up : List Head) (k : Actions) (a : Units)
    → Among (λ b. a ≡ b) (actions_of k)
    → C (render_action a ∷ bar ∷ up)
    → SomewhereIn C up (render_actions k)
unfolding render_actions Somewhere actions_of
in_actions C up hidden a m c = m
in_actions C up usual a m c =
    inl (inr (each-Somewhere C (bar ∷ up) render_action a (actions_of usual) c m))
in_actions C up (chosen l) a m c = inl (inr (each-Somewhere C (bar ∷ up) render_action a l c m))

in_reactions :
    (C : List Head → Type 0) (up : List Head) (l : List Reaction) (r : Reaction)
    → Among (λ s. r ≡ s) l
    → C (render_reaction r ∷ box ∷ up)
    → SomewhereIn C up (render_reactions (some l))
unfolding render_reactions Somewhere
in_reactions C up [] r m c = m
in_reactions C up (s ∷ l) r m c =
    inl (inr (each-Somewhere C (box ∷ up) render_reaction r (s ∷ l) c m))

module _ (handlers : Handlers) (uid : Units) (actions : Actions) (message : ChatMessage)
    (outside : List Head) (plain : All IsPlain outside) where
  -- A click somewhere in the message makes this call and no other.
  abbrev pub Clickable : ChatCall → Type 0
  Clickable call =
      Somewhere (λ path. on_click handlers path ≡ call ∷ []) outside
        (render_message uid actions message)

  around : (h : Head) → IsPlain h → All IsPlain (h ∷ article uid message ∷ outside)
  unfolding article
  around h p = (p, ((refl, refl, refl), plain))

  action-Clickable :
      (a : Units)
      → handlers.action ≡ true
      → Among (λ b. a ≡ b) (actions_of actions)
      → Clickable (acted a (some (article uid message)))
  unfolding Somewhere render_message closest_message has_class article same_units
  action-Clickable a given m = inr (
      inr (
        inr (
          in_actions (λ path. on_click handlers path ≡ acted a (some row) ∷ []) (row ∷ outside)
            actions a m
            (action_click handlers (bar ∷ row ∷ outside) (around bar (refl, refl, refl)) a row refl
              ∙ ap (λ b. if b then acted a (some row) ∷ [] else []) given))))
    where
      row : Head
      row = article uid message

  in_content :
      (C : List Head → Type 0)
      → SomewhereIn C (body_of ∷ article uid message ∷ outside) (message_content message)
      → Somewhere C outside (render_message uid actions message)
  unfolding Somewhere render_message
  in_content C h = inr (inr (inl (inr h)))

  reaction-Clickable :
      (l : List Reaction) (r : Reaction)
      → handlers.reaction ≡ true
      → message.reactions ≡ some l
      → Among (λ s. r ≡ s) l
      → Clickable (reacted (or_else r.emoji []) (some (article uid message)))
  unfolding Somewhere message_content closest_message has_class article same_units
  reaction-Clickable l r given e m = in_content C (
      inr (
        join_right C (body_of ∷ row ∷ outside) (reply_preview message.reply)
          (cons (element body nil) (render_reactions message.reactions))
          (inr (
            subst (λ o. SomewhereIn C (body_of ∷ row ∷ outside) (render_reactions o)) (sym e)
              (in_reactions C (body_of ∷ row ∷ outside) l r m (
                reaction_click handlers (box ∷ body_of ∷ row ∷ outside)
                  ((refl, refl, refl), around body_of (refl, refl, refl)) r row refl
                ∙ ap (λ b. if b then reacted (or_else r.emoji []) (some row) ∷ [] else [])
                    given))))))
    where
      row : Head
      row = article uid message

      body : Head
      body = text "div" (or_else message.body []) ("wg-message-body" ∷ [])

      C : List Head → Type 0
      C path = on_click handlers path ≡ reacted (or_else r.emoji []) (some row) ∷ []

  reply-Clickable :
      (reply : Reply) (id : Units)
      → message.reply ≡ some reply
      → reply.id ≡ some id
      → Clickable (jumped id)
  unfolding Somewhere message_content reply_preview
  reply-Clickable reply id e f = in_content C (
      inr (
        join_left C up (reply_preview message.reply)
          (cons (element (text "div" (or_else message.body []) ("wg-message-body" ∷ [])) nil)
            (render_reactions message.reactions))
          (subst (λ o. SomewhereIn C up (reply_preview o)) (sym e) (inl (inl pressed)))))
    where
      up : List Head
      up = body_of ∷ article uid message ∷ outside

      C : List Head → Type 0
      C path = on_click handlers path ≡ jumped id ∷ []

      pressed : C (render_reply reply ∷ body_of ∷ article uid message ∷ outside)
      pressed =
          reply_click handlers (body_of ∷ article uid message ∷ outside)
            (around body_of (refl, refl, refl)) reply
          ∙ rw f refl

  -- In a rendered message around which no element asks for clicks, a click can be made that calls
  -- the handler of actions, if it is given, with any action of the options and nothing else; the
  -- handler of reactions, if it is given, with any reaction of the message; and the jump with the id
  -- of the reply. The handlers are called with the message's own element.
  pub all-Clickable :
      (handlers.action ≡ true
        → All (λ a. Clickable (acted a (some (article uid message)))) (actions_of actions))
      × (handlers.reaction ≡ true
          → (l : List Reaction) → message.reactions ≡ some l
          → All
              (λ (r : Reaction).
                Clickable (reacted (or_else r.emoji []) (some (article uid message))))
              l)
      × ((reply : Reply) (id : Units)
          → message.reply ≡ some reply
          → reply.id ≡ some id
          → Clickable (jumped id))
  all-Clickable = (
    (λ given.
        All-map (λ a. Among (λ b. a ≡ b) (actions_of actions))
          (λ a. Clickable (acted a (some (article uid message)))) (actions_of actions)
          (λ a. action-Clickable a given) (each-Among (actions_of actions))),
    (λ given l e.
        All-map (λ r. Among (λ s. r ≡ s) l)
          (λ (r : Reaction). Clickable (reacted (or_else r.emoji []) (some (article uid message))))
          l (λ r. reaction-Clickable l r given e) (each-Among l)),
    reply-Clickable,
  )
