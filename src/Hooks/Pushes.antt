-- ===== src/Hooks/Pushes.antt =====
-- `WiregridHooks` (priv/ui/js/liveview.js): the events that the hooks push.
use text.Mathlib.Text.{◌==◌ as str_eq}
use wiregrid.Base.{ℕ, String, Bool, true, false, Option, none, some, List, [], ◌∷◌, if◌then◌else◌}
use wiregrid.Base.Units.{Units}
use wiregrid.Composer.Types.{
  Effect, submit_called, error_called, error_dispatched, Options, Composer,
}
use wiregrid.Composer.Ops as ComposerOps
use wiregrid.Chat.Elements.{Head}
use wiregrid.Chat.Clicks.{ChatCall, jumped, reacted, acted, on_click}

-- `pushEvent`: an event with a body, or with an action or reaction and the id of the message.
pub data Push : Type 0 where
  body_pushed : String → String → Push
  message_pushed : String → Units → Option Units → Push

-- What the browser says of texts, as in the options of a composer.
pub record Measures : Type 0 where
  pub bytes : String → ℕ
  pub blank : String → Bool
  pub height : String → ℕ

-- The options that `Composer.mounted` gives to `bindComposer`.
abbrev pub hook_options : Measures → Options
hook_options m = record {
  bytes = m.bytes;
  blank = m.blank;
  height = m.height;
  max_bytes = none;
  max_height = none;
  enter_to_send = true;
  handles = false;
}

unfoldable pub composer_mounted : Measures → String → Composer
composer_mounted m value = ComposerOps.bind (hook_options m) value

-- `this._wg?.destroy?.()`.
unfoldable pub composer_destroyed : Option Composer → Option Composer
composer_destroyed none = none
composer_destroyed (some c) = some (ComposerOps.destroy c)

-- `this.el.dataset.event || "wiregrid:send"`.
unfoldable pub event_name : Option String → String
event_name none = "wiregrid:send"
event_name (some name) = if str_eq name "" then "wiregrid:send" else name

-- What `onSubmit` has pushed, by the calls of it.
unfoldable pub composer_pushes : Option String → List Effect → List Push
unfolding event_name
composer_pushes name [] = []
composer_pushes name (submit_called body ∷ l) =
    body_pushed (event_name name) body ∷ composer_pushes name l
composer_pushes name (error_called ∷ l) = composer_pushes name l
composer_pushes name (error_dispatched ∷ l) = composer_pushes name l

-- `message?.dataset.messageId`.
unfoldable pub id_of : Option Head → Option Units
id_of none = none
id_of (some h) = h.message_id

-- The two handlers that `ChatActions.mounted` gives to `bindChatActions`; a jump pushes nothing.
unfoldable pub call_pushes : List ChatCall → List Push
unfolding id_of
call_pushes [] = []
call_pushes (jumped id ∷ l) = call_pushes l
call_pushes (reacted reaction row ∷ l) =
    message_pushed "wiregrid:reaction" reaction (id_of row) ∷ call_pushes l
call_pushes (acted action row ∷ l) =
    message_pushed "wiregrid:message_action" action (id_of row) ∷ call_pushes l

unfoldable pub click_pushes : List Head → List Push
unfolding call_pushes on_click
click_pushes path = call_pushes (on_click (record { reaction = true; action = true }) path)
