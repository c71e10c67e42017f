-- ===== src/Chat/Buttons.antt =====
-- The buttons of a rendered message and what a click on one of them calls (priv/ui/js/chat.js).
use wiregrid.Base.{
  ◌≡◌, refl, ◌⊎◌, inl, inr, Option, none, some, List, [], ◌∷◌, All, All-map, if◌then◌else◌, or_else,
  arith, Option-cases, Bool-cases,
}
use wiregrid.Base.Units.{Units, same_units}
use wiregrid.Chat.Elements.{
  Head, element, Forest, nil, cons, text, join, each, has_class, Everywhere, EverywhereIn,
}
use wiregrid.Chat.Message.{
  Reply, Reaction, Actions, hidden, usual, chosen, render_reply, render_reaction, render_action,
  actions_of, render_actions, render_reactions,
}
use wiregrid.Chat.Clicks.{
  jumped, reacted, acted, Handlers, closest_data, closest_message, call_handler, handle_others,
  on_click,
}

-- Some entry satisfies the predicate.
abbrev pub Among : {X : Type 0} → (X → Type 0) → List X → Type 0
Among P [] = ⊥
Among P (x ∷ l) = P x ⊎ Among P l

pub each-Among : {X : Type 0} (l : List X) → All (λ x. Among (λ y. x ≡ y) l) l
each-Among [] = tt
each-Among (x ∷ l) = (
  inl refl,
  All-map (λ z. Among (λ y. z ≡ y) l) (λ z. Among (λ y. z ≡ y) (x ∷ l)) l (λ z m. inr m)
      (each-Among l),
)

-- An element that no click asks for.
abbrev pub IsPlain : Head → Type 0
IsPlain h = (h.jump ≡ none) × (h.reaction ≡ none) × (h.action ≡ none)

closest_none :
    (data_of : Head → Option Units) (path : List Head)
    → All (λ h. data_of h ≡ none) path
    → closest_data data_of path ≡ none
unfolding closest_data
closest_none data_of [] h = refl
closest_none data_of (x ∷ path) h = ground (arith, h.0, closest_none data_of path h.1)

module _ (handlers : Handlers) (path : List Head) (plain : All IsPlain path) where
  no_jump : closest_data (λ h. h.jump) path ≡ none
  no_jump =
      closest_none (λ h. h.jump) path (All-map IsPlain (λ h. h.jump ≡ none) path (λ h p. p.0) plain)

  no_reaction : closest_data (λ h. h.reaction) path ≡ none
  no_reaction =
      closest_none (λ h. h.reaction) path
        (All-map IsPlain (λ h. h.reaction ≡ none) path (λ h p. p.1) plain)

  no_action : closest_data (λ h. h.action) path ≡ none
  no_action =
      closest_none (λ h. h.action) path
        (All-map IsPlain (λ h. h.action ≡ none) path (λ h p. p.2) plain)

  pub plain_click : on_click handlers path ≡ []
  unfolding on_click handle_others call_handler
  plain_click = rw (on_click, no_jump, handle_others, no_reaction, no_action) refl

  pub reply_click :
      (reply : Reply)
      → on_click handlers (render_reply reply ∷ path)
        ≡ elim reply.id [ none ↦ [] | some id ↦ jumped id ∷ [] ]
  unfolding on_click handle_others call_handler closest_data render_reply
  reply_click reply = elim (Option-cases reply.id) [
    | inl e ↦ rw (e, no_jump, no_reaction, no_action) refl
    | inr (id, e) ↦ rw e refl
  ]

  pub reaction_click :
      (r : Reaction) (row : Head)
      → closest_message path ≡ some row
      → on_click handlers (render_reaction r ∷ path)
        ≡ (if handlers.reaction then reacted (or_else r.emoji []) (some row) ∷ [] else [])
  unfolding on_click handle_others call_handler closest_data closest_message render_reaction
      has_class same_units
  reaction_click r row m = elim (Bool-cases handlers.reaction) [
    | inl e ↦ rw (no_jump, no_action, m, e) refl
    | inr e ↦ rw (no_jump, no_action, e) refl
  ]

  pub action_click :
      (a : Units) (row : Head)
      → closest_message path ≡ some row
      → on_click handlers (render_action a ∷ path)
        ≡ (if handlers.action then acted a (some row) ∷ [] else [])
  unfolding on_click handle_others call_handler closest_data closest_message render_action has_class
      same_units
  action_click a row m = elim (Bool-cases handlers.action) [
    | inl e ↦ rw (no_jump, no_reaction, m, e) refl
    | inr e ↦ rw (no_jump, no_reaction, e) refl
  ]

pub each-Everywhere :
    {X : Type 0} (C : List Head → Type 0) (up : List Head) (f : X → Head) (l : List X)
    → All (λ x. C (f x ∷ up)) l
    → EverywhereIn C up (each f l)
unfolding each Everywhere
each-Everywhere C up f [] h = tt
each-Everywhere C up f (x ∷ l) h = ((h.0, tt), each-Everywhere C up f l h.1)

pub join-Everywhere :
    (C : List Head → Type 0) (up : List Head) (f g : Forest)
    → EverywhereIn C up f
    → EverywhereIn C up g
    → EverywhereIn C up (join f g)
unfolding join Everywhere
join-Everywhere C up nil g h k = k
join-Everywhere C up (cons t f) g h k = (h.0, join-Everywhere C up f g h.1 k)

abbrev pub bar : Head
bar = text "div" [] ("wg-message-actions" ∷ [])

abbrev pub box : Head
box = text "div" [] ("wg-reactions" ∷ [])

abbrev pub body_of : Head
body_of = text "div" [] ("wg-message__content" ∷ [])

pub render_actions-cases :
    (actions : Actions)
    → (render_actions actions ≡ nil)
      ⊎ (render_actions actions ≡ cons (element bar (each render_action (actions_of actions))) nil)
unfolding render_actions
render_actions-cases hidden = inl refl
render_actions-cases usual = inr refl
render_actions-cases (chosen l) = inr refl

pub render_reactions-cases :
    (o : Option (List Reaction))
    → (render_reactions o ≡ nil)
      ⊎ ((l : List Reaction) × (o ≡ some l)
          × (render_reactions o ≡ cons (element box (each render_reaction l)) nil))
unfolding render_reactions
render_reactions-cases none = inl refl
render_reactions-cases (some []) = inl refl
render_reactions-cases (some (r ∷ l)) = inr (r ∷ l, refl, refl)
