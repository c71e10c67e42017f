-- ===== src/Chat/Pressed.antt =====
-- Which calls the clicks on a rendered message make (priv/ui/js/chat.js).
use wiregrid.Base.{
  ◌≡◌, refl, sym, ap, subst, inl, inr, Option, none, some, List, [], ◌∷◌, All, All-map, or_else,
  Option-cases, if_either,
}
use wiregrid.Base.Units.{Units, codes, same_units}
use wiregrid.Chat.Elements.{Head, element, nil, cons, text, has_class, Everywhere, EverywhereIn}
use wiregrid.Chat.Message.{
  Reply, Reaction, ChatMessage, Actions, truthy, render_reaction, render_action, actions_of,
  render_actions, render_reactions, avatar, message_head, reply_preview, message_content, article,
  render_message,
}
use wiregrid.Chat.Clicks.{ChatCall, jumped, reacted, acted, Handlers, closest_message, on_click}
use wiregrid.Chat.Buttons.{
  Among, each-Among, IsPlain, plain_click, reply_click, reaction_click, action_click,
  each-Everywhere, join-Everywhere, bar, box, body_of, render_actions-cases, render_reactions-cases,
}

-- What a call may be about: the reply's id, an emoji of a reaction or an action of the message, with
-- the element of the message itself.
abbrev pub Concerns : Units → Actions → ChatMessage → ChatCall → Type 0
Concerns uid actions message (jumped id) =
    (reply : Reply) × (message.reply ≡ some reply) × (reply.id ≡ some id)
Concerns uid actions message (reacted emoji row) =
    (l : List Reaction) × (message.reactions ≡ some l)
    × Among (λ (r : Reaction). or_else r.emoji [] ≡ emoji) l
    × (row ≡ some (article uid message))
Concerns uid actions message (acted a row) =
    Among (λ b. a ≡ b) (actions_of actions) × (row ≡ some (article uid message))

module _ (handlers : Handlers) (uid : Units) (actions : Actions) (message : ChatMessage)
    (outside : List Head) (plain : All IsPlain outside) where
  abbrev row : Head
  row = article uid message

  abbrev Right : List Head → Type 0
  Right path = All (Concerns uid actions message) (on_click handlers path)

  silent : (path : List Head) → All IsPlain path → Right path
  silent path p = subst (All (Concerns uid actions message)) (sym (plain_click handlers path p)) tt

  row-IsPlain : IsPlain row
  unfolding article
  row-IsPlain = (refl, refl, refl)

  row_closest : closest_message (row ∷ outside) ≡ some row
  unfolding closest_message has_class article same_units
  row_closest = refl

  quiet : (h : Head) (up : List Head) → IsPlain h → All IsPlain up → Right (h ∷ up)
  quiet h up p q = silent (h ∷ up) (p, q)

  around : All IsPlain (row ∷ outside)
  around = (row-IsPlain, plain)

  action-Right :
      (a : Units)
      → Among (λ b. a ≡ b) (actions_of actions)
      → Right (render_action a ∷ bar ∷ row ∷ outside)
  unfolding closest_message has_class article same_units
  action-Right a m =
      subst (All (Concerns uid actions message))
        (sym (action_click handlers (bar ∷ row ∷ outside) ((refl, refl, refl), around) a row refl))
        (if_either (All (Concerns uid actions message)) handlers.action (λ _. ((m, refl), tt))
          (λ _. tt))

  actions-Everywhere : EverywhereIn Right (row ∷ outside) (render_actions actions)
  unfolding Everywhere
  actions-Everywhere = elim (render_actions-cases actions) [
    | inl e ↦ rw e tt
    | inr e ↦ rw e (
      (
        quiet bar (row ∷ outside) (refl, refl, refl) around,
        each-Everywhere Right (bar ∷ row ∷ outside) render_action (actions_of actions) (
            All-map (λ a. Among (λ b. a ≡ b) (actions_of actions))
              (λ a. Right (render_action a ∷ bar ∷ row ∷ outside)) (actions_of actions) action-Right
              (each-Among (actions_of actions))),
      ),
      tt,
    )
  ]

  within : All IsPlain (body_of ∷ row ∷ outside)
  within = ((refl, refl, refl), around)

  reaction-Right :
      (l : List Reaction)
      → message.reactions ≡ some l
      → (r : Reaction) → Among (λ s. r ≡ s) l
      → Right (render_reaction r ∷ box ∷ body_of ∷ row ∷ outside)
  unfolding closest_message has_class article same_units
  reaction-Right l e r m =
      subst (All (Concerns uid actions message))
        (sym (
          reaction_click handlers (box ∷ body_of ∷ row ∷ outside) ((refl, refl, refl), within) r row
            refl))
        (if_either (All (Concerns uid actions message)) handlers.reaction
          (λ _. ((l, e, named l m, refl), tt)) (λ _. tt))
    where
      named :
          (k : List Reaction)
          → Among (λ s. r ≡ s) k
          → Among (λ (s : Reaction). or_else s.emoji [] ≡ or_else r.emoji []) k
      named [] n = n
      named (s ∷ k) (inl p) = inl (ap (λ (t : Reaction). or_else t.emoji []) (sym p))
      named (s ∷ k) (inr n) = inr (named k n)

  reactions-Everywhere :
      EverywhereIn Right (body_of ∷ row ∷ outside) (render_reactions message.reactions)
  unfolding Everywhere
  reactions-Everywhere = elim (render_reactions-cases message.reactions) [
    | inl e ↦ rw e tt
    | inr (l, e, shape) ↦ rw shape (
      (
        quiet box (body_of ∷ row ∷ outside) (refl, refl, refl) within,
        each-Everywhere Right (box ∷ body_of ∷ row ∷ outside) render_reaction l (
            All-map (λ r. Among (λ s. r ≡ s) l)
              (λ r. Right (render_reaction r ∷ box ∷ body_of ∷ row ∷ outside)) l
              (reaction-Right l e) (each-Among l)),
      ),
      tt,
    )
  ]

  reply-Right :
      (o : Option Reply)
      → message.reply ≡ o
      → EverywhereIn Right (body_of ∷ row ∷ outside) (reply_preview o)
  unfolding Everywhere reply_preview
  reply-Right none e = tt
  reply-Right (some reply) e = (
    (
      subst (All (Concerns uid actions message))
          (sym (reply_click handlers (body_of ∷ row ∷ outside) within reply))
          (elim (Option-cases reply.id) [
            | inl f ↦ rw f tt
            | inr (id, f) ↦ rw f ((reply, e, f), tt)
          ]),
      tt,
    ),
    tt,
  )

  head-Everywhere :
      Everywhere Right
        (body_of ∷ row ∷ outside)
        (element (text "div" [] ("wg-message-head" ∷ [])) (message_head message))
  unfolding Everywhere message_head
  head-Everywhere = (
    quiet top (body_of ∷ row ∷ outside) (refl, refl, refl) within,
    (
      (
        quiet author (top ∷ body_of ∷ row ∷ outside) (refl, refl, refl)
            ((refl, refl, refl), within),
        tt,
      ),
      elim (Option-cases (truthy message.time)) [
        | inl e ↦ rw e tt
        | inr (time, e) ↦ rw e (
          (
            quiet (text "time" time ("wg-time" ∷ [])) (top ∷ body_of ∷ row ∷ outside)
                (refl, refl, refl) ((refl, refl, refl), within),
            tt,
          ),
          tt,
        )
      ],
    ),
  )
    where
      top : Head
      top = text "div" [] ("wg-message-head" ∷ [])

      author : Head
      author = text "span" (or_else message.author (codes "Unknown")) ("wg-author" ∷ [])

  content-Everywhere : EverywhereIn Right (body_of ∷ row ∷ outside) (message_content message)
  unfolding Everywhere message_content
  content-Everywhere = (
    head-Everywhere,
    join-Everywhere Right (body_of ∷ row ∷ outside) (reply_preview message.reply)
        (cons (element body nil) (render_reactions message.reactions))
        (reply-Right message.reply refl)
        (
          (quiet body (body_of ∷ row ∷ outside) (refl, refl, refl) within, tt),
          reactions-Everywhere,
        ),
  )
    where
      body : Head
      body = text "div" (or_else message.body []) ("wg-message-body" ∷ [])

  avatar-IsPlain : IsPlain (avatar message.avatar_url)
  unfolding avatar
  avatar-IsPlain = elim (Option-cases (truthy message.avatar_url)) [
    | inl e ↦ rw (avatar, e) (refl, refl, refl)
    | inr (src, e) ↦ rw (avatar, e) (refl, refl, refl)
  ]

  -- Whatever element of a rendered message is clicked, if no element around the message asks for
  -- clicks: a jump is to the id of the message's reply, a reaction is called with an emoji of the
  -- message's reactions and an action with an action of the options, both with the message's own
  -- element.
  pub click-Concerns :
      Everywhere
        (λ path. All (Concerns uid actions message) (on_click handlers path))
        outside
        (render_message uid actions message)
  unfolding Everywhere render_message
  click-Concerns = (
    silent (row ∷ outside) around,
    (
      (quiet (avatar message.avatar_url) (row ∷ outside) avatar-IsPlain around, tt),
      (
        (quiet body_of (row ∷ outside) (refl, refl, refl) around, content-Everywhere),
        actions-Everywhere,
      ),
    ),
  )
