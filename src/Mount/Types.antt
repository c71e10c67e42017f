-- ===== src/Mount/Types.antt =====
-- The state of `mountChat` (priv/ui/js/mount.js): the three parts and what the panel shows. `S` is the
-- socket and `A` what a message shows.
use wiregrid.Base.{ℕ, String, Bool, Option, List}
use wiregrid.Client.Types.{Error, Client}
use wiregrid.Client.Steps.{Event as ClientEvent}
use wiregrid.Timeline.Types.{Message, Timeline}
use wiregrid.Timeline.Runs.{Operation}
use wiregrid.Composer.Types.{Composer, Event as ComposerEvent}

pub data Status : Type 0 where
  connecting online offline failing : Status

-- `envelope.event`: whether its type is "message", its nonce, and the rest.
pub record Posted (A : Type 0) : Type 0 where
  pub is_message : Bool
  pub nonce : Option String
  pub content : A

-- What `onEvent` is called with. The ids are texts, or undefined.
pub record Envelope (A : Type 0) : Type 0 where
  pub topic : String
  pub event : Option (Posted A)
  pub event_id : Option String
  pub delivery_id : Option String

-- What an envelope is mapped to: a message, nothing, or an exception of `mapMessage`.
pub data Mapped (A : Type 0) : Type 0 where
  ignored threw : Mapped A
  shown : Message A → Mapped A

-- An `await` that has not returned: of `options.onEvent` with its envelope, of an `ack`, of the
-- subscription, of `ready` before a text is sent, and of `say`.
pub data Task (A : Type 0) : Type 0 where
  handling : Envelope A → Task A
  acking subscribing saying : Task A
  sending : String → Task A

-- The calls that `mountChat` makes of the application.
pub data Call : Type 0 where
  on_event_called on_ready_called on_close_called error_reported : Call

pub record Mount (S A : Type 0) : Type 0 where
  pub topic : String
  pub destroyed : Bool
  pub status : Status
  pub disabled : Bool
  pub attached : Bool
  pub client : Client S
  pub timeline : Timeline A
  pub composer : Composer
  pub tasks : List (Task A)
  pub calls : List Call

-- Why there is no mounted chat: an option is missing, or `connectChat` threw.
pub data Mounted (S A : Type 0) : Type 0 where
  missing_option : Mounted S A
  refused : Error → Mounted S A
  mounted : Mount S A → Mounted S A

-- How a task ends.
pub data TaskEnd : Type 0 where
  fulfilled rejected : TaskEnd

-- What happens to a mounted chat. `arrived` is a call of `onEvent`, with what `uid` would return, and
-- `ended i` the end of the `i`-th task; `timeline_used` is a call that the application makes of
-- `chat.timeline`.
pub data MountEvent (S A : Type 0) : Type 0 where
  client_event : ClientEvent S → MountEvent S A
  disconnected : MountEvent S A
  arrived : String → Envelope A → MountEvent S A
  ready_resolved ready_rejected : MountEvent S A
  composer_event : ComposerEvent → MountEvent S A
  timeline_used : Operation A → MountEvent S A
  ended : ℕ → TaskEnd → MountEvent S A
  torn_down : MountEvent S A
