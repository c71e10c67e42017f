-- ===== src/Hooks/Faithful.antt =====
-- What the hooks push is what the user did (priv/ui/js/liveview.js).
use wiregrid.Base.{
  String, true, false, ◌≡◌, refl, sym, ap, ◌∙◌, ◌⊎◌, inl, inr, Option, some, List, [], ◌∷◌, All,
  All-map, or_else, subst, map,
}
use wiregrid.Base.Units.{Units}
use wiregrid.Composer.Types.{Effect, submit_called, error_called, error_dispatched, Composer, Event}
use wiregrid.Composer.Ops as ComposerOps
use wiregrid.Composer.Ops.{over}
use wiregrid.Composer.Sending.{Sendable, run-bind-HasBooks}
use wiregrid.Composer.Ended.{submitted, run-destroy}
use wiregrid.Chat.Elements.{
  Head, Tree, element, Forest, nil, cons, Everywhere, EverywhereIn, Somewhere, SomewhereIn,
}
use wiregrid.Chat.Message.{Reaction, ChatMessage, Actions, actions_of, render_message, article}
use wiregrid.Chat.Clicks.{ChatCall, jumped, reacted, acted, Handlers, on_click}
use wiregrid.Chat.Buttons.{Among, IsPlain}
use wiregrid.Chat.Pressed.{Concerns, click-Concerns}
use wiregrid.Chat.Reached.{Clickable, all-Clickable}
use wiregrid.Hooks.Pushes.{
  Push, body_pushed, message_pushed, Measures, hook_options, composer_mounted, composer_destroyed,
  event_name, composer_pushes, call_pushes, click_pushes, id_of,
}

-- A push of a text that may be sent.
abbrev pub Allowed : Measures → Option String → Push → Type 0
Allowed m name (body_pushed event body) =
    (event ≡ event_name name) × (m.blank body ≡ false) × (over (hook_options m) body ≡ false)
Allowed m name (message_pushed event value id) = ⊥

pushes-Allowed :
    (m : Measures) (name : Option String) (l : List Effect)
    → All (Sendable (hook_options m)) l
    → All (Allowed m name) (composer_pushes name l)
unfolding composer_pushes
pushes-Allowed m name [] h = tt
pushes-Allowed m name (submit_called body ∷ l) h =
    ((refl, h.0.0, h.0.1), pushes-Allowed m name l h.1)
pushes-Allowed m name (error_called ∷ l) h = pushes-Allowed m name l h.1
pushes-Allowed m name (error_dispatched ∷ l) h = pushes-Allowed m name l h.1

pushes-submitted :
    (name : Option String) (l : List Effect)
    → composer_pushes name l ≡ map (body_pushed (event_name name)) (submitted l)
unfolding composer_pushes
pushes-submitted name [] = refl
pushes-submitted name (submit_called body ∷ l) =
    ap (λ r. body_pushed (event_name name) body ∷ r) (pushes-submitted name l)
pushes-submitted name (error_called ∷ l) = pushes-submitted name l
pushes-submitted name (error_dispatched ∷ l) = pushes-submitted name l

-- What a mounted composer hook pushes in any run are texts under the event of the element, each not
-- blank and within the limit; after `destroyed` it pushes no more, whatever happens to the composer.
pub composer_mounted-Allowed :
    (m : Measures) (name : Option String) (value : String) (history later : List Event)
    → let c = ComposerOps.run (hook_options m) history (composer_mounted m value) in
      All (Allowed m name) (composer_pushes name c.effects)
      × ((d : Composer)
          → composer_destroyed (some c) ≡ some d
          → composer_pushes name (ComposerOps.run (hook_options m) later d).effects
            ≡ composer_pushes name c.effects)
unfolding composer_mounted composer_destroyed
composer_mounted-Allowed m name value history later = (
  pushes-Allowed m name c.effects (run-bind-HasBooks (hook_options m) value history).allowed,
  λ d e.
      subst
        (λ (u : Composer).
          composer_pushes name (ComposerOps.run (hook_options m) later u).effects
          ≡ composer_pushes name c.effects)
        (ap (λ o. or_else o c) e)
        (pushes-submitted name
            (ComposerOps.run (hook_options m) later (ComposerOps.destroy c)).effects
          ∙ (ap (map (body_pushed (event_name name)))
                (run-destroy (hook_options m) value history later).1
              ∙ sym (pushes-submitted name c.effects))),
)
  where
    c : Composer
    c = ComposerOps.run (hook_options m) history (composer_mounted m value)

mutual
  unfolding Somewhere

  map-Somewhere :
      (C D : List Head → Type 0)
      → ((path : List Head) → C path → D path)
      → (up : List Head) (t : Tree) → Somewhere C up t
      → Somewhere D up t
  map-Somewhere C D f up (element h g) (inl c) = inl (f (h ∷ up) c)
  map-Somewhere C D f up (element h g) (inr s) = inr (map-SomewhereIn C D f (h ∷ up) g s)

  map-SomewhereIn :
      (C D : List Head → Type 0)
      → ((path : List Head) → C path → D path)
      → (up : List Head) (g : Forest) → SomewhereIn C up g
      → SomewhereIn D up g
  map-SomewhereIn C D f up nil s = s
  map-SomewhereIn C D f up (cons t g) (inl s) = inl (map-Somewhere C D f up t s)
  map-SomewhereIn C D f up (cons t g) (inr s) = inr (map-SomewhereIn C D f up g s)

mutual
  unfolding Everywhere

  map-Everywhere :
      (C D : List Head → Type 0)
      → ((path : List Head) → C path → D path)
      → (up : List Head) (t : Tree) → Everywhere C up t
      → Everywhere D up t
  map-Everywhere C D f up (element h g) s = (f (h ∷ up) s.0, map-EverywhereIn C D f (h ∷ up) g s.1)

  map-EverywhereIn :
      (C D : List Head → Type 0)
      → ((path : List Head) → C path → D path)
      → (up : List Head) (g : Forest) → EverywhereIn C up g
      → EverywhereIn D up g
  map-EverywhereIn C D f up nil s = tt
  map-EverywhereIn C D f up (cons t g) s =
      (map-Everywhere C D f up t s.0, map-EverywhereIn C D f up g s.1)

module _ (uid : Units) (actions : Actions) (message : ChatMessage) where
  -- A push for this message: one of its actions or an emoji of its reactions, with its id.
  abbrev pub PushConcerns : Push → Type 0
  PushConcerns (body_pushed event body) = ⊥
  PushConcerns (message_pushed event value id) =
      (id ≡ some (or_else message.id uid))
      × (((event ≡ "wiregrid:message_action") × Among (λ a. value ≡ a) (actions_of actions))
          ⊎ ((event ≡ "wiregrid:reaction")
              × ((l : List Reaction) × (message.reactions ≡ some l)
                  × Among (λ (r : Reaction). or_else r.emoji [] ≡ value) l)))

  row_id :
      (row : Option Head)
      → row ≡ some (article uid message)
      → id_of row ≡ some (or_else message.id uid)
  unfolding article id_of
  row_id row e = ap id_of e

  concerned :
      (l : List ChatCall) → All (Concerns uid actions message) l → All PushConcerns (call_pushes l)
  unfolding call_pushes
  concerned [] h = tt
  concerned (jumped id ∷ l) h = concerned l h.1
  concerned (reacted emoji row ∷ l) ((k, e, m, r), h) =
      ((row_id row r, inr (refl, (k, e, m))), concerned l h)
  concerned (acted a row ∷ l) ((m, r), h) = ((row_id row r, inl (refl, m)), concerned l h)

  abbrev pub both : Handlers
  both = record { reaction = true; action = true }

  -- Some click in the message pushes this and nothing else.
  abbrev pub Pushable : List Head → Push → Type 0
  Pushable outside push =
      Somewhere (λ path. click_pushes path ≡ push ∷ []) outside (render_message uid actions message)

  pushed :
      (outside : List Head) (plain : All IsPlain outside) (call : ChatCall) (push : Push)
      → call_pushes (call ∷ []) ≡ push ∷ []
      → Clickable both uid actions message outside plain call
      → Pushable outside push
  unfolding click_pushes
  pushed outside plain call push e s =
      map-Somewhere (λ path. on_click both path ≡ call ∷ []) (λ path. click_pushes path ≡ push ∷ [])
        (λ path h. ap call_pushes h ∙ e) outside (render_message uid actions message) s

  -- In a rendered message around which no element asks for clicks, every click pushes only events
  -- of this message: one of its actions or of its reactions, with its id; and for every action and
  -- every reaction there is a click that pushes it alone.
  pub click_pushes-Faithful :
      (outside : List Head)
      → All IsPlain outside
      → Everywhere
          (λ path. All PushConcerns (click_pushes path))
          outside
          (render_message uid actions message)
        × All
            (λ a.
              Pushable outside
                (message_pushed "wiregrid:message_action" a (some (or_else message.id uid))))
            (actions_of actions)
        × ((l : List Reaction)
            → message.reactions ≡ some l
            → All
                (λ (r : Reaction). Pushable outside (
                  message_pushed "wiregrid:reaction"
                    (or_else r.emoji [])
                    (some (or_else message.id uid))))
                l)
  unfolding click_pushes call_pushes id_of article
  click_pushes-Faithful outside plain =
      let reach = all-Clickable both uid actions message outside plain in
      (
        map-Everywhere (λ path. All (Concerns uid actions message) (on_click both path))
            (λ path. All PushConcerns (click_pushes path))
            (λ path h. concerned (on_click both path) h) outside
            (render_message uid actions message)
            (click-Concerns both uid actions message outside plain),
        All-map _ _ (actions_of actions)
            (λ a c. pushed outside plain (acted a (some (article uid message))) _ refl c)
            (reach.0 refl),
        λ l e.
            All-map _ _ l
              (λ (r : Reaction) c.
                pushed outside plain (reacted (or_else r.emoji []) (some (article uid message))) _
                  refl c)
              (reach.1 refl l e),
      )
