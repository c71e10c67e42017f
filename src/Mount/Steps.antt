-- ===== src/Mount/Steps.antt =====
-- The steps of the client and of the timeline of a mounted chat, and `onEvent`, keep what holds of its
-- parts (priv/ui/js/mount.js).
use text.Mathlib.Text.{◌==◌ as str_eq}
use wiregrid.Base.{
  String, Bool, true, false, ◌||◌, ◌≡◌, refl, sym, ap, subst, ◌∙◌, List, [], ◌∷◌, ◌++◌, All,
  All-append, if_either, Option-cases, inl, inr,
}
use wiregrid.Base.Units.{codes, same_units}
use wiregrid.Json.{str}
use wiregrid.Mount.Topic.{topic_key}
use wiregrid.Client.Types.{Platform, Client, ok}
use wiregrid.Client.Options.{connect}
use wiregrid.Client.Call.{Command, ack}
use wiregrid.Client.Steps as ClientSteps
use wiregrid.Client.Steps.{Event as ClientEvent, called, closing}
use wiregrid.Client.Closed.{run-Ended_of_closed}
use wiregrid.Timeline.Types.{Layout, Timeline, Attempt, returned, thrown}
use wiregrid.Timeline.Ops as TimelineOps
use wiregrid.Timeline.Kept.{after}
use wiregrid.Timeline.Runs.{
  Operation, upserted, removed, cleared, operate, operate-Whole, operate-destroyed, Whole,
  FreshAt as TimelineFreshAt,
}
use wiregrid.Timeline.Runs as TimelineRuns
use wiregrid.Timeline.Origins.{EntersAt, operate-Rows}
use wiregrid.Mount.Types.{
  Mapped, ignored, threw, shown, Envelope, Task, handling, acking, on_event_called, Mount,
  MountEvent, arrived,
}
use wiregrid.Mount.Ops.{
  MountOptions, message_of, call_out, wait_for, report_error, same_topic, show_message, command,
  ack_delivery, on_event,
}
use wiregrid.Mount.Parts as Parts
use wiregrid.Mount.Parts.{torn, FreshAt, Fresh}

run-step :
    (P : Platform) (es : List (ClientEvent P.Socket)) (e : ClientEvent P.Socket)
    (c : Client P.Socket)
    → ClientSteps.run P (es ++ e ∷ []) c ≡ ClientSteps.step P e (ClientSteps.run P es c)
unfolding ClientSteps.run
run-step P [] e c = refl
run-step P (d ∷ es) e c = run-step P es e (ClientSteps.step P d c)

module _ (P : Platform) {A : Type 0} (o : MountOptions A) (layout : Layout A) (c0 : Client P.Socket)
    (socket : P.Socket) (connects : connect o.settings socket ≡ ok c0) (topic : String)
    (all : List (MountEvent P.Socket A)) where
  open P use {Socket}

  abbrev Occurs : MountEvent Socket A → Type 0
  Occurs = Parts.Occurs P o c0 topic all

  abbrev FromChat : ClientEvent Socket → Type 0
  FromChat = Parts.FromChat P o c0 topic all

  abbrev Reached : Client Socket → Type 0
  Reached = Parts.Reached P o c0 topic all

  abbrev TaskFrom : Task A → Type 0
  TaskFrom = Parts.TaskFrom P o c0 topic all

  abbrev IsSound : Bool → Mount Socket A → Type 0
  IsSound = Parts.IsSound P o c0 topic all

  pub step-Reached :
      (e : ClientEvent Socket) (c : Client Socket)
      → FromChat e
      → Reached c
      → Reached (ClientSteps.step P e c)
  step-Reached e c from (es, h, why) = (
    es ++ e ∷ [],
    ap (ClientSteps.step P e) h ∙ sym (run-step P es e c0),
    All-append FromChat es (e ∷ []) why (from, tt),
  )

  step_closed :
      (e : ClientEvent Socket) (c : Client Socket)
      → Reached c
      → c.closed ≡ true
      → (ClientSteps.step P e c).closed ≡ true
  unfolding ClientSteps.run
  step_closed e c (es, h, why) shut =
      let still =
        run-Ended_of_closed P o.settings socket es (e ∷ []) connects
          (subst (λ (d : Client Socket). d.closed ≡ true) h shut) in
      subst (λ d. (ClientSteps.step P e d).closed ≡ true) (sym h) still.is_closed

  -- The client takes a step.
  pub client-Parts :
      {down : Bool} (e : ClientEvent Socket) (m : Mount Socket A)
      → FromChat e
      → IsSound down m
      → IsSound down (record m { client = ClientSteps.step P e m.client })
  client-Parts e m from v = record {
    same = v.same;
    flag = v.flag;
    reached = step-Reached e m.client from v.reached;
    books = v.books;
    whole = v.whole;
    own_rows = v.own_rows;
    tasks_from = v.tasks_from;
    client_down = λ d. step_closed e m.client v.reached (v.client_down d);
    composer_down = v.composer_down;
    panel_down = v.panel_down;
  }

  pub tasks-Parts :
      {down : Bool} (tasks : List (Task A)) (m : Mount Socket A)
      → All TaskFrom tasks
      → IsSound down m
      → IsSound down (record m { tasks = tasks })
  tasks-Parts tasks m h v = record {
    same = v.same;
    flag = v.flag;
    reached = v.reached;
    books = v.books;
    whole = v.whole;
    own_rows = v.own_rows;
    tasks_from = h;
    client_down = v.client_down;
    composer_down = v.composer_down;
    panel_down = v.panel_down;
  }

  pub waits-IsSound :
      {down : Bool} (task : Task A) (m : Mount Socket A)
      → TaskFrom task
      → IsSound down m
      → IsSound down (wait_for task m)
  unfolding wait_for
  waits-IsSound task m p v =
      tasks-Parts (m.tasks ++ task ∷ []) m
        (All-append TaskFrom m.tasks (task ∷ []) v.tasks_from (p, tt)) v

  pub command-IsSound :
      {down : Bool} (k : Command) (task : Task A) (m : Mount Socket A)
      → FromChat (called k)
      → TaskFrom task
      → IsSound down m
      → IsSound down (command P k task m)
  unfolding command ClientSteps.step
  command-IsSound k task m from p v =
      waits-IsSound task (record m { client = ClientSteps.step P (called k) m.client }) p
        (client-Parts (called k) m from v)

  pub report-IsSound :
      {down : Bool} (m : Mount Socket A) → IsSound down m → IsSound down (report_error m)
  unfolding report_error call_out
  report-IsSound {down} m v = if_either (IsSound down) m.destroyed (λ _. v) (λ _. v)

  pub ack_delivery-IsSound :
      {down : Bool} (uid : String) (env : Envelope A) (m : Mount Socket A)
      → Occurs (arrived uid env)
      → IsSound down m
      → IsSound down (ack_delivery P env m)
  unfolding ack_delivery
  ack_delivery-IsSound {down} uid env m there v = elim (Option-cases env.delivery_id) [
    | inl e ↦ rw (ack_delivery, e) v
    | inr (id, e) ↦
        rw (ack_delivery, e)
          (if_either (IsSound down) (str_eq id "") (λ _. v)
            (λ _.
              command-IsSound (ack (str id)) acking m
                (inr (inr (inr (inr (uid, env, id, refl, e, there))))) tt v))
  ]

  -- A live timeline takes an operation.
  pub operate-Parts :
      {down : Bool} (e : Operation A) (m : Mount Socket A)
      → TimelineFreshAt e m.timeline
      → EntersAt (Parts.OwnRow P o c0 topic all) e
      → IsSound down m
      → IsSound down (record m { timeline = operate layout e m.timeline })
  operate-Parts e m fresh enters v = record {
    same = v.same;
    flag = v.flag;
    reached = v.reached;
    books = v.books;
    whole = operate-Whole layout e m.timeline v.whole fresh;
    own_rows =
        operate-Rows (Parts.OwnRow P o c0 topic all) layout e m.timeline v.whole fresh enters
          v.own_rows;
    tasks_from = v.tasks_from;
    client_down = v.client_down;
    composer_down = v.composer_down;
    panel_down = λ d. (
      (v.panel_down d).0,
      operate-destroyed layout e m.timeline
          ∙ (ap (λ b. TimelineRuns.torn (e ∷ []) || b) (v.panel_down d).1
              ∙ or_true (TimelineRuns.torn (e ∷ []))),
    );
  }
    where
      or_true : (b : Bool) → (b || true) ≡ true
      or_true true = refl
      or_true false = refl

  show_message-IsSound :
      {down : Bool} (uid : String) (mapped : Mapped A) (env : Envelope A) (m : Mount Socket A)
      → Occurs (arrived uid env)
      → message_of o env ≡ mapped
      → same_topic env m ≡ true
      → FreshAt P o layout (arrived uid env) m
      → IsSound down m
      → IsSound down (show_message layout uid mapped env m)
  unfolding show_message call_out same_topic operate
  show_message-IsSound uid threw env m there e s fresh v = report-IsSound m v
  show_message-IsSound uid ignored env m there e s fresh v =
      waits-IsSound (handling env) (call_out on_event_called m) (uid, there) v
  show_message-IsSound {down} uid (shown message) env m there e s fresh v =
      attempted (TimelineOps.upsert layout uid message m.timeline) refl
    where
      own : same_units (topic_key (codes env.topic)) (topic_key (codes topic)) ≡ true
      own =
          subst (λ t. same_units (topic_key (codes env.topic)) (topic_key (codes t)) ≡ true) v.same
            s

      taken :
          IsSound down (record m { timeline = operate layout (upserted uid message) m.timeline })
      taken =
          operate-Parts (upserted uid message) m (fresh message e)
            (λ ref. (uid, message, ref, refl, inl (env, there, own, e))) v

      attempted :
          (r : Attempt (Timeline A))
          → TimelineOps.upsert layout uid message m.timeline ≡ r
          → IsSound down (show_message layout uid (shown message) env m)
      attempted (thrown t) q =
          rw (show_message, q)
            (report-IsSound (record m { timeline = t })
              (subst (λ r. IsSound down (record m { timeline = after r })) q taken))
      attempted (returned t) q =
          rw (show_message, q)
            (waits-IsSound (handling env) (call_out on_event_called (record m { timeline = t }))
              (uid, there) (subst (λ r. IsSound down (record m { timeline = after r })) q taken))

  pub on_event-IsSound :
      {down : Bool} (uid : String) (env : Envelope A) (m : Mount Socket A)
      → Occurs (arrived uid env)
      → FreshAt P o layout (arrived uid env) m
      → IsSound down m
      → IsSound down (on_event P o layout uid env m)
  unfolding on_event
  on_event-IsSound {down} uid env m there fresh v =
      if_either (IsSound down) m.destroyed (λ _. v)
        (λ d.
          if_either (IsSound down) (same_topic env m)
            (λ s. show_message-IsSound uid (message_of o env) env m there refl s fresh v)
            (λ _. ack_delivery-IsSound uid env m there v))
