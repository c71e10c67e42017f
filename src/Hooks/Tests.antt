-- ===== src/Hooks/Tests.antt =====
-- Runs of the hooks, and the theorems at them (priv/ui/js/liveview.js).
use wiregrid.Base.{◌≡◌, refl, false, none, some, List, [], ◌∷◌, All, or_else}
use wiregrid.Base.Units.{codes}
use wiregrid.Composer.Types.{Composer, called, settled, threw}
use wiregrid.Composer.Ops as ComposerOps
use wiregrid.Chat.Elements.{Head, text, Everywhere}
use wiregrid.Chat.Message.{Reaction, ChatMessage, usual, actions_of, render_message}
use wiregrid.Hooks.Pushes.{
  Measures, hook_options, composer_mounted, composer_destroyed, composer_pushes, click_pushes,
  message_pushed,
}
use wiregrid.Hooks.Faithful.{
  Allowed, composer_mounted-Allowed, PushConcerns, Pushable, click_pushes-Faithful,
}

abbrev measures : Measures
measures = record { bytes = λ s. 5; blank = λ s. false; height = λ s. 20 }

composer_mounted-Allowed_example :
    All (Allowed measures none) (
      composer_pushes none
        (ComposerOps.run
          (hook_options measures)
          (called ∷ settled 0 threw ∷ [])
          (composer_mounted measures "hello")).effects)
    × ((d : Composer)
        → composer_destroyed (
            some (
              ComposerOps.run
                (hook_options measures)
                (called ∷ settled 0 threw ∷ [])
                (composer_mounted measures "hello")))
          ≡ some d
        → composer_pushes none (ComposerOps.run (hook_options measures) (called ∷ []) d).effects
          ≡ composer_pushes none
              (ComposerOps.run
                (hook_options measures)
                (called ∷ settled 0 threw ∷ [])
                (composer_mounted measures "hello")).effects)
composer_mounted-Allowed_example =
    composer_mounted-Allowed measures none "hello" (called ∷ settled 0 threw ∷ []) (called ∷ [])

abbrev liked : Reaction
liked = record { emoji = some (codes "+1"); count = none; mine = false }

abbrev note : ChatMessage
note = record {
  id = some (codes "m1");
  nonce = none;
  compact = false;
  avatar_url = none;
  author = none;
  time = none;
  body = some (codes "hello");
  reply = none;
  reactions = some (liked ∷ []);
}

abbrev panel : Head
panel = text "div" [] ("wg-messages" ∷ [])

click_pushes-Faithful_example :
    Everywhere
      (λ path. All (PushConcerns [] usual note) (click_pushes path))
      (panel ∷ [])
      (render_message [] usual note)
    × All
        (λ a.
          Pushable [] usual note
            (panel ∷ [])
            (message_pushed "wiregrid:message_action" a (some (codes "m1"))))
        (actions_of usual)
    × ((l : List Reaction)
        → note.reactions ≡ some l
        → All
            (λ (r : Reaction).
              Pushable [] usual note
                (panel ∷ [])
                (message_pushed "wiregrid:reaction" (or_else r.emoji []) (some (codes "m1"))))
            l)
click_pushes-Faithful_example =
    click_pushes-Faithful [] usual note (panel ∷ []) ((refl, refl, refl), tt)
