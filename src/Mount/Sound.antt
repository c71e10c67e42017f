-- ===== src/Mount/Sound.antt =====
-- What holds of a chat that `mountChat` made (priv/ui/js/mount.js).
use text.Mathlib.TextEquality.{eq_iff}
use wiregrid.Base.{
  Bool-cases, inl, inr, String, ◌||◌, Bool, true, false, ◌≢◌, ◌≡◌, refl, sym, ap, subst, ◌∙◌, List,
  arith, if_either,
}
use wiregrid.Base.Units.{codes, same_units}
use wiregrid.Json.{str}
use wiregrid.Client.Types.{Platform, Client, ok}
use wiregrid.Client.Options.{connect}
use wiregrid.Client.Call.{subscribe}
use wiregrid.Client.Steps as ClientSteps
use wiregrid.Client.Steps.{called}
use wiregrid.Timeline.Types.{Message, Layout, Timeline, Attempt, returned, thrown}
use wiregrid.Timeline.Ops as TimelineOps
use wiregrid.Timeline.Kept.{after}
use wiregrid.Chat.Buttons.{each-Among}
use wiregrid.Mount.Topic.{topic_key}
use wiregrid.Mount.Types.{Envelope, shown, Mount, mounted, MountEvent, arrived, ready_resolved}
use wiregrid.Mount.Ops.{
  MountOptions, message_of, call_out, wait_for, report_error, same_topic, show_message, command,
  on_event, on_ready, mount_step, mount_run, mount_chat, new_chat,
}
use wiregrid.Mount.Parts.{torn, Fresh, IsSound}
use wiregrid.Mount.Run.{run-IsSound, new_chat-IsSound}

module _ (P : Platform) {A : Type 0} (o : MountOptions A) (layout : Layout A) where
  open P use {Socket}

  report-timeline : (m : Mount Socket A) → (report_error m).timeline ≡ m.timeline
  unfolding report_error call_out
  report-timeline m = elim (Bool-cases m.destroyed) [ inl e ↦ rw e refl | inr e ↦ rw e refl ]

  show_message-timeline :
      (uid : String) (message : Message A) (env : Envelope A) (m : Mount Socket A)
      → (show_message layout uid (shown message) env m).timeline
        ≡ after (TimelineOps.upsert layout uid message m.timeline)
  unfolding show_message call_out wait_for
  show_message-timeline uid message env m =
      attempted (TimelineOps.upsert layout uid message m.timeline) refl
    where
      attempted :
          (r : Attempt (Timeline A))
          → TimelineOps.upsert layout uid message m.timeline ≡ r
          → (show_message layout uid (shown message) env m).timeline
            ≡ after (TimelineOps.upsert layout uid message m.timeline)
      attempted (thrown t) q = rw (show_message, q) (report-timeline (record m { timeline = t }))
      attempted (returned t) q = rw (show_message, q) refl

  arrived-timeline :
      (uid : String) (env : Envelope A) (message : Message A) (m : Mount Socket A)
      → m.destroyed ≡ false
      → same_topic env m ≡ true
      → message_of o env ≡ shown message
      → (mount_step P o layout (arrived uid env) m).timeline
        ≡ after (TimelineOps.upsert layout uid message m.timeline)
  unfolding mount_step on_event
  arrived-timeline uid env message m d s e =
      let given = after (TimelineOps.upsert layout uid message m.timeline) in
      if_either (λ (n : Mount Socket A). n.timeline ≡ given) m.destroyed
        (λ p. absurd (ground (arith, d, p)))
        (λ _.
          if_either (λ (n : Mount Socket A). n.timeline ≡ given) (same_topic env m)
            (λ _.
              subst (λ r. (show_message layout uid r env m).timeline ≡ given) (sym e)
                (show_message-timeline uid message env m))
            (λ p. absurd (ground (arith, s, p))))

  ready_resolved-client :
      (m : Mount Socket A)
      → m.destroyed ≡ false
      → (mount_step P o layout ready_resolved m).client
        ≡ ClientSteps.step P (called (subscribe (str m.topic))) m.client
  unfolding mount_step on_ready command wait_for ClientSteps.step
  ready_resolved-client m d =
      if_either
        (λ (n : Mount Socket A).
          n.client ≡ ClientSteps.step P (called (subscribe (str m.topic))) m.client)
        m.destroyed (λ p. absurd (ground (arith, d, p))) (λ _. refl)

-- If a url and a topic are given and `connectChat` does not throw, `mountChat` makes a chat. In every
-- run of it in which `uid` makes new ids: it is destroyed exactly if `destroy` was called; every step
-- of its client is one of the client's own events or calls, a subscription of the chat's topic after
-- `ready`, a text for this topic that may be sent, an acknowledgement of an envelope that arrived, or
-- the close of `destroy`; the composer keeps its books; the timeline agrees with its document within
-- its limit or is destroyed and empty, and each of its rows shows a message that an arrived envelope
-- of the same topic was mapped to or that the application entered; and after `destroy` the client is
-- closed, the composer and the timeline are destroyed and the panel is gone. Until `destroy`, a
-- message of this topic that arrives is given to `upsert`, and `ready` subscribes to the topic.
pub mount_chat-IsSound :
    (P : Platform) {A : Type 0} (o : MountOptions A) (layout : Layout A) (c0 : Client P.Socket)
    (socket : P.Socket) (topic : String) (l : List (MountEvent P.Socket A))
    → connect o.settings socket ≡ ok c0
    → o.has_url ≡ true
    → topic ≢ ""
    → Fresh P o layout l (new_chat P o topic c0)
    → let m = mount_run P o layout l (new_chat P o topic c0) in
      (mount_chat P o topic socket ≡ mounted (new_chat P o topic c0))
      × IsSound P o c0 topic l (torn l) m
      × (torn l ≡ false
          → ((uid : String) (env : Envelope A) (message : Message A)
              → same_units (topic_key (codes env.topic)) (topic_key (codes topic)) ≡ true
              → message_of o env ≡ shown message
              → (mount_step P o layout (arrived uid env) m).timeline
                ≡ after (TimelineOps.upsert layout uid message m.timeline))
            × ((mount_step P o layout ready_resolved m).client
                ≡ ClientSteps.step P (called (subscribe (str topic))) m.client))
unfolding mount_chat same_topic
mount_chat-IsSound P o layout c0 socket topic l connects u t f =
    let start = new_chat P o topic c0 in
    let m = mount_run P o layout l start in
    let sound =
      subst (λ b. IsSound P o c0 topic l b m) (or_false (torn l))
        (run-IsSound P o layout c0 socket connects topic l l false start (each-Among l) f
          (new_chat-IsSound P o layout c0 socket connects topic l)) in
    (
      ground (arith, u, eq_iff topic "", connects),
      sound,
      λ e. (
        λ uid env message s h.
            arrived-timeline P o layout uid env message m (sound.flag ∙ e)
              (subst (λ q. same_units (topic_key (codes env.topic)) (topic_key (codes q)) ≡ true)
                (sym sound.same) s)
              h,
        ready_resolved-client P o layout m (sound.flag ∙ e)
            ∙ ap (λ q. ClientSteps.step P (called (subscribe (str q))) m.client) sound.same,
      ),
    )
  where
    or_false : (b : Bool) → (b || false) ≡ b
    or_false true = refl
    or_false false = refl
