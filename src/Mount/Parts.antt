-- ===== src/Mount/Parts.antt =====
-- What each part of a mounted chat keeps (priv/ui/js/mount.js).
use wiregrid.Base.{ℕ, String, Bool, true, false, ◌≡◌, some, List, [], ◌∷◌, All, ◌⊎◌}
use wiregrid.Base.Units.{codes, same_units}
use wiregrid.Json.{str, end}
use wiregrid.Client.Types.{Platform, Client}
use wiregrid.Client.Call.{say, ack, subscribe}
use wiregrid.Client.Steps as ClientSteps
use wiregrid.Client.Steps.{Event as ClientEvent, called, closing}
use wiregrid.Timeline.Types.{Node, Message, Layout, Timeline}
use wiregrid.Timeline.Ops.{render}
use wiregrid.Timeline.Runs.{upserted, Whole, FreshAt as TimelineFreshAt}
use wiregrid.Timeline.Origins.{Rows}
use wiregrid.Composer.Types.{Composer, submit_called}
use wiregrid.Composer.Sending.{HasBooks, Sendable}
use wiregrid.Chat.Buttons.{Among}
use wiregrid.Mount.Topic.{topic_key}
use wiregrid.Mount.Types.{
  Envelope, Task, handling, acking, subscribing, saying, sending, Mount, shown, MountEvent,
  client_event, arrived, ready_resolved, timeline_used, torn_down,
}
use wiregrid.Mount.Ops.{MountOptions, message_of, mount_step}

-- Some event is a call of `destroy`.
abbrev pub torn : {S A : Type 0} → List (MountEvent S A) → Bool
torn [] = false
torn (torn_down ∷ l) = true
torn (_ ∷ l) = torn l

module _ (P : Platform) {A : Type 0} (o : MountOptions A) (layout : Layout A) where
  open P use {Socket}

  -- The id that `uid` makes is new where the message has none.
  abbrev pub FreshAt : MountEvent Socket A → Mount Socket A → Type 0
  FreshAt (arrived uid env) m =
      (message : Message A)
      → message_of o env ≡ shown message
      → TimelineFreshAt (upserted uid message) m.timeline
  FreshAt (timeline_used e) m = TimelineFreshAt e m.timeline
  FreshAt _ m = Unit {0}

  abbrev pub Fresh : List (MountEvent Socket A) → Mount Socket A → Type 0
  Fresh [] m = Unit {0}
  Fresh (e ∷ l) m = FreshAt e m × Fresh l (mount_step P o layout e m)

-- `all` are the events of a chat of `topic` around the client `c0`.
module _ (P : Platform) {A : Type 0} (o : MountOptions A) (c0 : Client P.Socket) (topic : String)
    (all : List (MountEvent P.Socket A)) where
  open P use {Socket}

  abbrev pub Occurs : MountEvent Socket A → Type 0
  Occurs e = Among (λ d. e ≡ d) all

  -- Why a step of the client came about: it is an event of its own; or the chat closed it for
  -- `destroy`, subscribed to its topic for `ready`, said a text in its topic that may be sent, or
  -- acknowledged an envelope that arrived.
  abbrev pub FromChat : ClientEvent Socket → Type 0
  FromChat e =
      Occurs (client_event e)
      ⊎ (((e ≡ closing) × Occurs torn_down)
          ⊎ (((e ≡ called (subscribe (str topic))) × Occurs ready_resolved)
              ⊎ (((body : String) × (e ≡ called (say (str topic) (str body) end))
                    × Sendable o.composer (submit_called body))
                  ⊎ ((uid : String) × (env : Envelope A) × (id : String) × (e
                        ≡ called (ack (str id)))
                      × (env.delivery_id ≡ some id)
                      × Occurs (arrived uid env)))))

  -- A client that came about from `c0` by such steps.
  abbrev pub Reached : Client Socket → Type 0
  Reached c = (es : List (ClientEvent Socket)) × (c ≡ ClientSteps.run P es c0) × All FromChat es

  -- A row shows a message that an envelope of this topic was mapped to, or that the application
  -- entered.
  abbrev pub OwnRow : Node A → Type 0
  OwnRow node =
      (uid : String) × (message : Message A) × (ref : ℕ) × (node ≡ render message uid ref)
      × (((env : Envelope A) × Occurs (arrived uid env)
            × (same_units (topic_key (codes env.topic)) (topic_key (codes topic)) ≡ true)
            × (message_of o env ≡ shown message))
          ⊎ Occurs (timeline_used (upserted uid message)))

  -- What a task is about.
  abbrev pub TaskFrom : Task A → Type 0
  TaskFrom (handling env) = (uid : String) × Occurs (arrived uid env)
  TaskFrom (sending body) = Sendable o.composer (submit_called body)
  TaskFrom acking = Unit {0}
  TaskFrom subscribing = Unit {0}
  TaskFrom saying = Unit {0}

  pub record Parts (down : Bool) (named : String) (destroyed attached : Bool)
      (client : Client Socket) (timeline : Timeline A) (composer : Composer) (tasks : List (Task A))
      : Type 0 where
    pub same : named ≡ topic
    pub flag : destroyed ≡ down
    pub reached : Reached client
    pub books : HasBooks o.composer composer
    pub whole : Whole timeline
    pub own_rows : Rows OwnRow timeline
    pub tasks_from : All TaskFrom tasks
    pub client_down : destroyed ≡ true → client.closed ≡ true
    pub composer_down : destroyed ≡ true → composer.destroyed ≡ true
    pub panel_down : destroyed ≡ true → (attached ≡ false) × (timeline.destroyed ≡ true)

  abbrev pub IsSound : Bool → Mount Socket A → Type 0
  IsSound down m = Parts down m.topic m.destroyed m.attached m.client m.timeline m.composer m.tasks
