-- ===== src/Mount/Ops.antt =====
-- The functions of `mountChat` (priv/ui/js/mount.js). An `await` ends a step; what waits is an entry
-- of `tasks`.
use text.Mathlib.Text.{◌==◌ as str_eq}
use wiregrid.Base.{
  ℕ, zero, suc, String, Bool, true, false, not, ◌||◌, Option, none, some, List, [], ◌∷◌, ◌++◌,
  if◌then◌else◌, length,
}
use wiregrid.Base.Units.{codes, same_units}
use wiregrid.Json.{str, end}
use wiregrid.Client.Types.{ok, err, Platform, Client}
use wiregrid.Client.Options.{Settings, connect}
use wiregrid.Client.Core as ClientCore
use wiregrid.Client.Call.{Command, say, ack, subscribe, invoke}
use wiregrid.Client.Steps as ClientSteps
use wiregrid.Timeline.Types.{Amount, Layout, returned, thrown}
use wiregrid.Timeline.Index as TimelineIndex
use wiregrid.Timeline.Ops as TimelineOps
use wiregrid.Composer.Types.{
  Event as ComposerEvent, Options, Effect, submit_called, error_called, error_dispatched,
}
use wiregrid.Composer.Ops as ComposerOps
use wiregrid.Mount.Topic.{topic_key}
use wiregrid.Timeline.Runs.{operate}
use wiregrid.Mount.Types.{
  Mapped, ignored, threw, shown, timeline_used, connecting, online, offline, failing, Envelope,
  Task, handling, acking, subscribing, saying, sending, Call, on_event_called, on_ready_called,
  on_close_called, error_reported, Mount, Mounted, missing_option, refused, mounted, TaskEnd,
  fulfilled, rejected, MountEvent, client_event, disconnected, arrived, ready_resolved,
  ready_rejected, composer_event, ended, torn_down,
}

-- `a || b` on texts.
unfoldable pub text_or : Option String → Option String → Option String
text_or none b = b
text_or (some a) b = if str_eq a "" then b else some a

-- The part of the options that is not for one of the three parts: `url` is given, and `mapMessage`,
-- if it is.
pub record MountOptions (A : Type 0) : Type 0 where
  pub has_url : Bool
  pub map_message : Option (Envelope A → Mapped A)
  pub composer : Options
  pub settings : Settings
  pub max_messages : Amount
  pub auto_scroll : Bool

module _ {A : Type 0} where
  unfoldable pub default_message : Envelope A → Mapped A
  unfolding text_or
  default_message env = elim env.event [
    | none ↦ ignored
    | some e ↦
        if e.is_message
        then shown (record {
          id = text_or env.event_id env.delivery_id;
          nonce = e.nonce;
          content = e.content;
        })
        else ignored
  ]

  unfoldable pub message_of : MountOptions A → Envelope A → Mapped A
  unfolding default_message
  message_of o env = elim o.map_message [ none ↦ default_message env | some f ↦ f env ]

module _ {S A : Type 0} where
  unfoldable pub call_out : Call → Mount S A → Mount S A
  call_out k m = record m { calls = m.calls ++ k ∷ [] }

  unfoldable pub wait_for : Task A → Mount S A → Mount S A
  wait_for k m = record m { tasks = m.tasks ++ k ∷ [] }

  unfoldable pub connected : Bool → Mount S A → Mount S A
  connected active m = record m {
    disabled = not active;
    status = if active then online else offline;
  }

  unfoldable pub report_error : Mount S A → Mount S A
  unfolding call_out
  report_error m =
      if m.destroyed then m else call_out error_reported (record m { status = failing })

  unfoldable pub on_close : Mount S A → Mount S A
  unfolding connected call_out
  on_close m = if m.destroyed then m else call_out on_close_called (connected false m)

  unfoldable pub same_topic : Envelope A → Mount S A → Bool
  same_topic env m = same_units (topic_key (codes env.topic)) (topic_key (codes m.topic))

  -- The `try` block up to `await options.onEvent`, with the exceptions of `mapMessage` and `upsert`.
  unfoldable pub show_message : Layout A → String → Mapped A → Envelope A → Mount S A → Mount S A
  unfolding call_out wait_for report_error
  show_message layout uid threw env m = report_error m
  show_message layout uid ignored env m = wait_for (handling env) (call_out on_event_called m)
  show_message layout uid (shown message) env m =
      elim (TimelineOps.upsert layout uid message m.timeline) [
        | thrown t ↦ report_error (record m { timeline = t })
        | returned t ↦
            wait_for (handling env) (call_out on_event_called (record m { timeline = t }))
      ]

module _ (P : Platform) {A : Type 0} where
  open P use {Socket}

  unfoldable pub command : Command → Task A → Mount Socket A → Mount Socket A
  unfolding wait_for
  command k task m = wait_for task (record m { client = invoke P k m.client })

  unfoldable pub ack_delivery : Envelope A → Mount Socket A → Mount Socket A
  unfolding command
  ack_delivery env m = elim env.delivery_id [
    | none ↦ m
    | some id ↦ if str_eq id "" then m else command (ack (str id)) acking m
  ]

  unfoldable pub on_event :
      MountOptions A → Layout A → String → Envelope A → Mount Socket A → Mount Socket A
  unfolding same_topic show_message message_of ack_delivery
  on_event o layout uid env m =
      if m.destroyed
      then m
      else if same_topic env m
      then show_message layout uid (message_of o env) env m
      else ack_delivery env m

  unfoldable pub on_ready : Mount Socket A → Mount Socket A
  unfolding command
  on_ready m = if m.destroyed then m else command (subscribe (str m.topic)) subscribing m

  -- The composer's calls since its effects were `n`: `onSubmit` waits for `ready`, and `onError` is
  -- `report`.
  unfoldable pub composer_calls : ℕ → List Effect → Mount Socket A → Mount Socket A
  unfolding wait_for report_error
  composer_calls (suc n) (e ∷ l) m = composer_calls n l m
  composer_calls zero (submit_called body ∷ l) m = composer_calls zero l (wait_for (sending body) m)
  composer_calls zero (error_called ∷ l) m = composer_calls zero l (report_error m)
  composer_calls zero (error_dispatched ∷ l) m = composer_calls zero l m
  composer_calls n [] m = m

  unfoldable pub on_composer : MountOptions A → ComposerEvent → Mount Socket A → Mount Socket A
  unfolding composer_calls
  on_composer o e m =
      let c = ComposerOps.step o.composer e m.composer in
      composer_calls (length m.composer.effects) c.effects (record m { composer = c })

  -- What follows an `await`.
  unfoldable pub go_on_with : Task A → TaskEnd → Mount Socket A → Mount Socket A
  unfolding ack_delivery report_error connected call_out command
  go_on_with (handling env) fulfilled m = ack_delivery env m
  go_on_with (handling env) rejected m = report_error m
  go_on_with acking fulfilled m = m
  go_on_with acking rejected m = report_error m
  go_on_with subscribing fulfilled m =
      if m.destroyed then m else call_out on_ready_called (connected true m)
  go_on_with subscribing rejected m = report_error m
  go_on_with (sending body) fulfilled m = command (say (str m.topic) (str body) end) saying m
  go_on_with (sending body) rejected m = m
  go_on_with saying fulfilled m = if m.destroyed then m else connected true m
  go_on_with saying rejected m = m

  unfoldable pub take_task : ℕ → List (Task A) → Option (Task A × List (Task A))
  take_task i [] = none
  take_task zero (k ∷ l) = some (k, l)
  take_task (suc i) (k ∷ l) = elim (take_task i l) [
    | none ↦ none
    | some (found, rest) ↦ some (found, k ∷ rest)
  ]

  unfoldable pub end_task :
      Option (Task A × List (Task A)) → TaskEnd → Mount Socket A → Mount Socket A
  unfolding go_on_with
  end_task none how m = m
  end_task (some (k, rest)) how m = go_on_with k how (record m { tasks = rest })

  unfoldable pub tear_down_chat : Mount Socket A → Mount Socket A
  tear_down_chat m = if m.destroyed then m else record m {
    destroyed = true;
    composer = ComposerOps.destroy m.composer;
    timeline = TimelineOps.destroy m.timeline;
    client = ClientCore.close P m.client;
    attached = false;
  }

  unfoldable pub mount_step :
      MountOptions A → Layout A → MountEvent Socket A → Mount Socket A → Mount Socket A
  unfolding on_close on_event on_ready report_error on_composer end_task take_task tear_down_chat
  mount_step o layout (client_event e) m = record m { client = ClientSteps.step P e m.client }
  mount_step o layout disconnected m = on_close m
  mount_step o layout (arrived uid env) m = on_event o layout uid env m
  mount_step o layout ready_resolved m = on_ready m
  mount_step o layout ready_rejected m = report_error m
  mount_step o layout (composer_event e) m = on_composer o e m
  mount_step o layout (timeline_used e) m = record m { timeline = operate layout e m.timeline }
  mount_step o layout (ended i how) m = end_task (take_task i m.tasks) how m
  mount_step o layout torn_down m = tear_down_chat m

  unfoldable pub mount_run :
      MountOptions A → Layout A → List (MountEvent Socket A) → Mount Socket A → Mount Socket A
  unfolding mount_step
  mount_run o layout [] m = m
  mount_run o layout (e ∷ l) m = mount_run o layout l (mount_step o layout e m)

  -- What `mountChat` makes around a client.
  unfoldable pub new_chat : MountOptions A → String → Client Socket → Mount Socket A
  new_chat o topic client = record {
    topic = topic;
    destroyed = false;
    status = connecting;
    disabled = true;
    attached = true;
    client = client;
    timeline = TimelineIndex.create o.max_messages o.auto_scroll [] none none 0 0;
    composer = ComposerOps.bind o.composer "";
    tasks = [];
    calls = [];
  }

  -- `mountChat`. If `connectChat` throws, the timeline is destroyed and the panel removed, and nothing
  -- is left of them.
  unfoldable pub mount_chat : MountOptions A → String → Socket → Mounted Socket A
  mount_chat o topic socket =
      if not o.has_url || str_eq topic ""
      then missing_option
      else elim (connect o.settings socket) [
        | err error ↦ refused error
        | ok client ↦ mounted (new_chat o topic client)
      ]
