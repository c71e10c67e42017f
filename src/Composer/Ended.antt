-- ===== src/Composer/Ended.antt =====
-- A composer that is destroyed stays so and submits nothing more (priv/ui/js/composer.js).
use wiregrid.Base.{
  ℕ, ◌≡◌, refl, ap, ◌∙◌, [], ◌∷◌, ◌++◌, append-nil, arith, String, Bool, true, false, not, ◌&&◌,
  ◌==◌, Option, none, some, List, if◌then◌else◌, if_either,
}
use wiregrid.Composer.Types.{
  Stage, sending, handling, Submission, Answer, accepted, Effect, submit_called, error_called,
  declined, failed, error_dispatched, Options, Composer, Outcome, gave_false, gave_other, threw,
  Event, called, typed, assigned, pressed, form_submitted, settled, torn_down,
}
use wiregrid.Composer.Ops.{
  effect, answer, resize, sync, submit, finish, accept, reject, handled, resume, resume_at, take_at,
  on_input, sends, run, bind, on_key, on_submit, destroy, step, same_value,
}

-- The texts that were submitted.
abbrev pub submitted : List Effect → List String
submitted [] = []
submitted (submit_called text ∷ l) = text ∷ submitted l
submitted (error_called ∷ l) = submitted l
submitted (error_dispatched ∷ l) = submitted l

submitted-append : (l m : List Effect) → submitted (l ++ m) ≡ submitted l ++ submitted m
submitted-append [] m = refl
submitted-append (submit_called text ∷ l) m = ap (λ r. text ∷ r) (submitted-append l m)
submitted-append (error_called ∷ l) m = submitted-append l m
submitted-append (error_dispatched ∷ l) m = submitted-append l m

-- It is destroyed and has submitted these texts.
abbrev pub Ended : List String → Composer → Type 0
Ended texts c = (c.destroyed ≡ true) × (submitted c.effects ≡ texts)

effect-Ended :
    (texts : List String) (e : Effect) (c : Composer)
    → submitted (e ∷ []) ≡ []
    → Ended texts c
    → Ended texts (effect e c)
unfolding effect
effect-Ended texts e c h v = (
  v.0,
  submitted-append c.effects (e ∷ [])
      ∙ (ap (λ l. submitted c.effects ++ l) h ∙ (append-nil (submitted c.effects) ∙ v.1)),
)

module _ (texts : List String) where
  submit-Ended : (o : Options) (c : Composer) → Ended texts c → Ended texts (submit o c)
  unfolding submit answer effect
  submit-Ended o c v =
      if_either (Ended texts) c.destroyed (λ _. v) (λ d. absurd (ground (arith, v.0)))

  finish-Ended : (a : Answer) (c : Composer) → Ended texts c → Ended texts (finish a c)
  unfolding finish answer
  finish-Ended a c v = if_either (λ u. Ended texts (answer a u)) c.destroyed (λ _. v) (λ _. v)

  accept-Ended :
      (o : Options) (kept : Bool) (s : Submission) (c : Composer)
      → Ended texts c
      → Ended texts (accept o kept s c)
  unfolding accept sync resize
  accept-Ended o kept s c v =
      if_either (λ u. Ended texts (finish (if kept then accepted else declined) u))
        (not c.destroyed && (kept && (same_value c.value s.value && c.revision == s.revision)))
        (λ _. finish-Ended _ (sync o (record c { value = "" })) v) (λ _. finish-Ended _ c v)

  reject-Ended :
      (o : Options) (s : Submission) (c : Composer) → Ended texts c → Ended texts (reject o s c)
  unfolding reject effect
  reject-Ended o s c v =
      if_either (Ended texts) c.destroyed (λ _. finish-Ended failed c v)
        (λ _.
          if_either (Ended texts) o.handles (λ _. effect-Ended texts error_called c refl v)
            (λ _.
              finish-Ended failed (effect error_dispatched c)
                (effect-Ended texts error_dispatched c refl v)))

  handled-Ended : (thrown : Bool) (c : Composer) → Ended texts c → Ended texts (handled thrown c)
  unfolding handled effect
  handled-Ended true c v =
      finish-Ended failed (effect error_dispatched c) (effect-Ended texts error_dispatched c refl v)
  handled-Ended false c v = finish-Ended failed c v

  resume-Ended :
      (o : Options) (s : Submission) (outcome : Outcome) (c : Composer)
      → Ended texts c
      → Ended texts (resume o s outcome c)
  unfolding resume
  resume-Ended o s outcome c v = resumed s.value s.revision s.stage outcome
    where
      resumed :
          (value : String) (revision : ℕ) (stage : Stage) (how : Outcome)
          → Ended texts
              (resume o (record { value = value; revision = revision; stage = stage }) how c)
      resumed value revision sending gave_false = accept-Ended o false _ c v
      resumed value revision sending gave_other = accept-Ended o true _ c v
      resumed value revision sending threw = reject-Ended o _ c v
      resumed value revision handling gave_false = handled-Ended false c v
      resumed value revision handling gave_other = handled-Ended false c v
      resumed value revision handling threw = handled-Ended true c v

  settled-Ended :
      (o : Options) (found : Option (Submission × List Submission)) (outcome : Outcome)
      (c : Composer)
      → Ended texts c
      → Ended texts (resume_at o found outcome c)
  unfolding resume_at
  settled-Ended o none outcome c v = v
  settled-Ended o (some (s, rest)) outcome c v =
      resume-Ended o s outcome (record c { waiting = rest }) v

  pub step-Ended :
      (o : Options) (e : Event) (c : Composer) → Ended texts c → Ended texts (step o e c)
  unfolding step on_input on_key on_submit destroy sync resize
  step-Ended o called c v = submit-Ended o c v
  step-Ended o (typed text) c v = if_either (Ended texts) c.destroyed (λ _. v) (λ _. v)
  step-Ended o (assigned text) c v = v
  step-Ended o (pressed k) c v =
      if_either (Ended texts) (not c.destroyed && sends o k) (λ _. submit-Ended o c v) (λ _. v)
  step-Ended o form_submitted c v =
      if_either (Ended texts) c.destroyed (λ _. v) (λ _. submit-Ended o c v)
  step-Ended o (settled i outcome) c v = settled-Ended o (take_at i c.waiting) outcome c v
  step-Ended o torn_down c v = (refl, v.1)

  run-Ended :
      (o : Options) (l : List Event) (c : Composer) → Ended texts c → Ended texts (run o l c)
  unfolding run
  run-Ended o [] c v = v
  run-Ended o (e ∷ l) c v = run-Ended o l (step o e c) (step-Ended o e c v)

-- Once it is destroyed, a composer stays so and submits no more text, whatever happens then, even if
-- a submission was under way.
pub run-destroy :
    (o : Options) (value : String) (history later : List Event)
    → Ended
        (submitted (run o history (bind o value)).effects)
        (run o later (destroy (run o history (bind o value))))
unfolding destroy
run-destroy o value history later =
    let before = run o history (bind o value) in
    run-Ended (submitted before.effects) o later (destroy before) (refl, refl)
