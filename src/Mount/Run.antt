-- ===== src/Mount/Run.antt =====
-- The composer, the tasks and the end of a mounted chat keep what holds of its parts, and so does
-- every run (priv/ui/js/mount.js).
use wiregrid.Base.{
  ℕ, zero, suc, String, Bool, true, false, ◌||◌, ◌≡◌, refl, ap, subst, Option, none, some, List, [],
  ◌∷◌, All, arith, if_either, Option-cases, Bool-cases, inl, inr, length,
}
use wiregrid.Json.{str, end}
use wiregrid.Client.Types.{Platform, Client, ok}
use wiregrid.Client.Options.{connect}
use wiregrid.Client.Call.{say, subscribe}
use wiregrid.Client.Steps as ClientSteps
use wiregrid.Client.Steps.{Event as ClientEvent, called, closing}
use wiregrid.Client.Closed.{close_closes}
use wiregrid.Timeline.Types.{Layout}
use wiregrid.Timeline.Dom.{rows}
use wiregrid.Timeline.Index as TimelineIndex
use wiregrid.Timeline.Ops as TimelineOps
use wiregrid.Timeline.Runs.{
  Operation, upserted, removed, cleared, operate, operate-Whole, operate-destroyed, Whole,
  FreshAt as TimelineFreshAt,
}
use wiregrid.Timeline.Runs as TimelineRuns
use wiregrid.Timeline.Origins.{EntersAt}
use wiregrid.Timeline.Starting.{create-HasInv}
use wiregrid.Composer.Types.{
  Composer, Effect, submit_called, error_called, error_dispatched, Event as ComposerEvent,
}
use wiregrid.Composer.Types as ComposerTypes
use wiregrid.Composer.Ops as ComposerOps
use wiregrid.Composer.Sending.{Sendable, step-HasBooks, run-bind-HasBooks}
use wiregrid.Composer.Ended.{submitted, step-Ended}
use wiregrid.Mount.Types.{
  Task, handling, acking, subscribing, saying, sending, Mount, TaskEnd, fulfilled, rejected,
  MountEvent, client_event, disconnected, arrived, ready_resolved, ready_rejected, composer_event,
  timeline_used, ended, torn_down,
}
use wiregrid.Mount.Ops.{
  MountOptions, call_out, wait_for, connected, report_error, on_close, on_ready, composer_calls,
  on_composer, go_on_with, take_task, end_task, tear_down_chat, mount_step, mount_run, new_chat,
}
use wiregrid.Mount.Parts as Parts
use wiregrid.Mount.Parts.{torn, FreshAt, Fresh}
use wiregrid.Mount.Steps.{
  step-Reached, client-Parts, tasks-Parts, waits-IsSound, command-IsSound, report-IsSound,
  ack_delivery-IsSound, operate-Parts, on_event-IsSound,
}

module _ (P : Platform) {A : Type 0} (o : MountOptions A) (layout : Layout A) (c0 : Client P.Socket)
    (socket : P.Socket) (connects : connect o.settings socket ≡ ok c0) (topic : String)
    (all : List (MountEvent P.Socket A)) where
  open P use {Socket}

  abbrev Occurs : MountEvent Socket A → Type 0
  Occurs = Parts.Occurs P o c0 topic all

  abbrev TaskFrom : Task A → Type 0
  TaskFrom = Parts.TaskFrom P o c0 topic all

  abbrev IsSound : Bool → Mount Socket A → Type 0
  IsSound = Parts.IsSound P o c0 topic all

  composer_calls-IsSound :
      {down : Bool} (n : ℕ) (l : List Effect) (m : Mount Socket A)
      → All (Sendable o.composer) l
      → IsSound down m
      → IsSound down (composer_calls P n l m)
  unfolding composer_calls
  composer_calls-IsSound zero [] m h v = v
  composer_calls-IsSound (suc n) [] m h v = v
  composer_calls-IsSound (suc n) (e ∷ l) m h v = composer_calls-IsSound n l m h.1 v
  composer_calls-IsSound zero (submit_called body ∷ l) m h v =
      composer_calls-IsSound zero l (wait_for (sending body) m) h.1
        (waits-IsSound P o layout c0 socket connects topic all (sending body) m h.0 v)
  composer_calls-IsSound zero (error_called ∷ l) m h v =
      composer_calls-IsSound zero l (report_error m) h.1
        (report-IsSound P o layout c0 socket connects topic all m v)
  composer_calls-IsSound zero (error_dispatched ∷ l) m h v = composer_calls-IsSound zero l m h.1 v

  on_composer-IsSound :
      {down : Bool} (e : ComposerEvent) (m : Mount Socket A)
      → IsSound down m
      → IsSound down (on_composer P o e m)
  unfolding on_composer
  on_composer-IsSound e m v =
      let c = ComposerOps.step o.composer e m.composer in
      let books = step-HasBooks o.composer e m.composer v.books in
      composer_calls-IsSound (length m.composer.effects) c.effects (record m { composer = c })
        books.allowed
        (record {
          same = v.same;
          flag = v.flag;
          reached = v.reached;
          books = books;
          whole = v.whole;
          own_rows = v.own_rows;
          tasks_from = v.tasks_from;
          client_down = v.client_down;
          composer_down = λ d.
              (step-Ended (submitted m.composer.effects) o.composer e m.composer
                (v.composer_down d, refl)).0;
          panel_down = v.panel_down;
        })

  go_on_with-IsSound :
      {down : Bool} (task : Task A) (how : TaskEnd) (m : Mount Socket A)
      → TaskFrom task
      → IsSound down m
      → IsSound down (go_on_with P task how m)
  unfolding go_on_with connected call_out
  go_on_with-IsSound (handling env) fulfilled m (uid, there) v =
      ack_delivery-IsSound P o layout c0 socket connects topic all uid env m there v
  go_on_with-IsSound (handling env) rejected m p v =
      report-IsSound P o layout c0 socket connects topic all m v
  go_on_with-IsSound acking fulfilled m p v = v
  go_on_with-IsSound acking rejected m p v =
      report-IsSound P o layout c0 socket connects topic all m v
  go_on_with-IsSound {down} subscribing fulfilled m p v =
      if_either (IsSound down) m.destroyed (λ _. v) (λ _. v)
  go_on_with-IsSound subscribing rejected m p v =
      report-IsSound P o layout c0 socket connects topic all m v
  go_on_with-IsSound (sending body) fulfilled m p v =
      command-IsSound P o layout c0 socket connects topic all (say (str m.topic) (str body) end)
        saying m
        (inr (inr (inr (inl (body, ap (λ t. called (say (str t) (str body) end)) v.same, p))))) tt v
  go_on_with-IsSound (sending body) rejected m p v = v
  go_on_with-IsSound {down} saying fulfilled m p v =
      if_either (IsSound down) m.destroyed (λ _. v) (λ _. v)
  go_on_with-IsSound saying rejected m p v = v

  abbrev Taken : Option (Task A × List (Task A)) → Type 0
  Taken none = Unit {0}
  Taken (some (k, rest)) = TaskFrom k × All TaskFrom rest

  take_task-Taken : (i : ℕ) (l : List (Task A)) → All TaskFrom l → Taken (take_task P i l)
  unfolding take_task
  take_task-Taken zero [] h = tt
  take_task-Taken (suc i) [] h = tt
  take_task-Taken zero (k ∷ l) h = h
  take_task-Taken (suc i) (k ∷ l) h = elim (Option-cases (take_task P i l)) [
    | inl e ↦ rw (take_task, e) tt
    | inr ((found, rest), e) ↦
        let (f, r) = subst Taken e (take_task-Taken i l h.1) in rw (take_task, e) (f, (h.0, r))
  ]

  end_task-IsSound :
      {down : Bool} (found : Option (Task A × List (Task A))) (how : TaskEnd) (m : Mount Socket A)
      → Taken found
      → IsSound down m
      → IsSound down (end_task P found how m)
  unfolding end_task
  end_task-IsSound none how m p v = v
  end_task-IsSound (some (task, rest)) how m p v =
      go_on_with-IsSound task how (record m { tasks = rest }) p.0
        (tasks-Parts P o layout c0 socket connects topic all rest m p.1 v)

  tear_down-IsSound :
      {down : Bool} (m : Mount Socket A)
      → Occurs torn_down
      → IsSound down m
      → IsSound true (tear_down_chat P m)
  unfolding tear_down_chat TimelineOps.destroy ComposerOps.destroy ComposerOps.step ClientSteps.step
  tear_down-IsSound m there v =
      if_either (IsSound true) m.destroyed
        (λ d. record {
          same = v.same;
          flag = d;
          reached = v.reached;
          books = v.books;
          whole = v.whole;
          own_rows = v.own_rows;
          tasks_from = v.tasks_from;
          client_down = v.client_down;
          composer_down = v.composer_down;
          panel_down = v.panel_down;
        })
        (λ _. record {
          same = v.same;
          flag = refl;
          reached =
              step-Reached P o layout c0 socket connects topic all closing m.client
                (inr (inl (refl, there))) v.reached;
          books = step-HasBooks o.composer ComposerTypes.torn_down m.composer v.books;
          whole = inr (refl, refl, refl);
          own_rows = tt;
          tasks_from = v.tasks_from;
          client_down = λ _. close_closes P m.client;
          composer_down = λ _. refl;
          panel_down = λ _. (refl, refl);
        })

  used-Enters :
      (e : Operation A) → Occurs (timeline_used e) → EntersAt (Parts.OwnRow P o c0 topic all) e
  used-Enters (upserted uid message) there = λ ref. (uid, message, ref, refl, inr there)
  used-Enters (removed id) there = tt
  used-Enters cleared there = tt
  used-Enters TimelineRuns.torn_down there = tt

  step-IsSound :
      {down : Bool} (e : MountEvent Socket A) (m : Mount Socket A)
      → Occurs e
      → FreshAt P o layout e m
      → IsSound down m
      → IsSound (torn (e ∷ []) || down) (mount_step P o layout e m)
  unfolding mount_step on_close call_out connected on_ready
  step-IsSound (client_event e) m there f v =
      client-Parts P o layout c0 socket connects topic all e m (inl there) v
  step-IsSound {down} disconnected m there f v =
      if_either (IsSound down) m.destroyed (λ _. v) (λ _. v)
  step-IsSound (arrived uid env) m there f v =
      on_event-IsSound P o layout c0 socket connects topic all uid env m there f v
  step-IsSound {down} ready_resolved m there f v =
      if_either (IsSound down) m.destroyed (λ _. v)
        (λ _.
          command-IsSound P o layout c0 socket connects topic all (subscribe (str m.topic))
            subscribing m (inr (inr (inl (ap (λ t. called (subscribe (str t))) v.same, there)))) tt
            v)
  step-IsSound ready_rejected m there f v =
      report-IsSound P o layout c0 socket connects topic all m v
  step-IsSound (composer_event e) m there f v = on_composer-IsSound e m v
  step-IsSound (timeline_used e) m there f v =
      operate-Parts P o layout c0 socket connects topic all e m f (used-Enters e there) v
  step-IsSound (ended i how) m there f v =
      end_task-IsSound (take_task P i m.tasks) how m (take_task-Taken i m.tasks v.tasks_from) v
  step-IsSound torn_down m there f v = tear_down-IsSound m there v

  torn_first :
      (e : MountEvent Socket A) (l : List (MountEvent Socket A)) (b : Bool)
      → (torn l || (torn (e ∷ []) || b)) ≡ (torn (e ∷ l) || b)
  torn_first (client_event e) l b = refl
  torn_first disconnected l b = refl
  torn_first (arrived uid env) l b = refl
  torn_first ready_resolved l b = refl
  torn_first ready_rejected l b = refl
  torn_first (composer_event e) l b = refl
  torn_first (timeline_used e) l b = refl
  torn_first (ended i how) l b = refl
  torn_first torn_down l b = elim (Bool-cases (torn l)) [ inl e ↦ rw e refl | inr e ↦ rw e refl ]

  pub run-IsSound :
      (l : List (MountEvent Socket A)) (down : Bool) (m : Mount Socket A)
      → All Occurs l
      → Fresh P o layout l m
      → IsSound down m
      → IsSound (torn l || down) (mount_run P o layout l m)
  unfolding mount_run
  run-IsSound [] down m there f v = v
  run-IsSound (e ∷ l) down m there f v =
      subst (λ b. IsSound b (mount_run P o layout l (mount_step P o layout e m)))
        (torn_first e l down)
        (run-IsSound l (torn (e ∷ []) || down) (mount_step P o layout e m) there.1 f.1
          (step-IsSound e m there.0 f.0 v))

  pub new_chat-IsSound : IsSound false (new_chat P o topic c0)
  unfolding new_chat ClientSteps.run TimelineIndex.create TimelineIndex.adopt TimelineIndex.trim
      TimelineIndex.trim_loop rows ComposerOps.run
  new_chat-IsSound = record {
    same = refl;
    flag = refl;
    reached = ([], refl, tt);
    books = run-bind-HasBooks o.composer "" [];
    whole =
        inl (
          (create-HasInv o.max_messages o.auto_scroll [] none none 0 0 tt tt).0,
          refl,
          omega arith,
        );
    own_rows = tt;
    tasks_from = tt;
    client_down = λ d. absurd (ground arith);
    composer_down = λ d. absurd (ground arith);
    panel_down = λ d. absurd (ground arith);
  }
