-- ===== src/Global/SameComposer.antt =====
-- The composer of priv/ui/wiregrid.js does what that of priv/ui/js/composer.js does.
use wiregrid.Base.{
  ℕ, zero, suc, String, Bool, true, false, not, ◌&&◌, ◌||◌, ◌≡◌, refl, sym, ap, ◌∙◌, Option, none,
  some, List, [], ◌∷◌, map, map-append, ap₂, or_else, ltb, ◌==◌, min, arith, if◌then◌else◌,
}
use wiregrid.Composer.Types.{
  Stage, sending, handling, Submission, refused, ignored, accepted, declined, failed, Answer,
  error_dispatched, Options, Key, Composer, Outcome, gave_false, gave_other, threw, Event, called,
  typed, assigned, pressed, form_submitted, settled, torn_down,
}
use wiregrid.Composer.Ops.{
  effect, answer, resize, max_bytes, over, sync, submit, finish, accept, reject, handled, resume,
  resume_at, on_input, sends, on_key, on_submit, destroy, step, run, bind, take_at, same_value,
}
use wiregrid.Global.Composer.{
  truthy_or, emit, return_from, too_long, sync_form, submit_form, leave, take_result, take_error,
  after_handler, go_on, go_on_at, input_heard, key_sends, key_heard, submit_heard, tear_down,
  happen, play, mount_composer,
}

abbrev pub nonzero : Option ℕ → Option ℕ
nonzero none = none
nonzero (some zero) = none
nonzero (some (suc n)) = some (suc n)

-- The options as the module reads them.
abbrev pub as_module : Options → Options
as_module o = record o { max_bytes = nonzero o.max_bytes; max_height = nonzero o.max_height }

-- Where the module returns nothing, the script returns false.
abbrev pub as_script : Answer → Answer
as_script refused = refused
as_script ignored = refused
as_script accepted = accepted
as_script declined = declined
as_script failed = failed

abbrev pub seen_by_script : Composer → Composer
seen_by_script c = record c { answers = map as_script c.answers }

truthy_or-nonzero :
    (n : Option ℕ) (fallback : ℕ) → truthy_or n fallback ≡ or_else (nonzero n) fallback
unfolding truthy_or
truthy_or-nonzero none fallback = refl
truthy_or-nonzero (some zero) fallback = refl
truthy_or-nonzero (some (suc n)) fallback = refl

-- Two conditionals agree up to a view if their tests and their branches do.
if_same :
    {A : Type 0} (view : A → A) (p b : Bool) (u w x y : A)
    → p ≡ b
    → u ≡ view x
    → w ≡ view y
    → (if p then u else w) ≡ view (if b then x else y)
if_same view p true u w x y e f g = rw e f
if_same view p false u w x y e f g = rw e g

too_long-over : (o : Options) (value : String) → too_long o value ≡ over (as_module o) value
unfolding too_long over max_bytes
too_long-over o value = ap (λ n. ltb n (o.bytes value)) (truthy_or-nonzero o.max_bytes 65536)

-- An answer that both give.
answer-seen :
    (a : Answer) (c : Composer)
    → return_from (as_script a) (seen_by_script c) ≡ seen_by_script (answer a c)
unfolding return_from answer
answer-seen a c =
    ap (λ l. record (seen_by_script c) { answers = l })
      (sym (map-append as_script c.answers (a ∷ [])))

sync-seen :
    (o : Options) (c : Composer)
    → sync_form o (seen_by_script c) ≡ seen_by_script (sync (as_module o) c)
unfolding sync_form sync resize
sync-seen o c =
    ap₂
      (λ (h : ℕ) (v : Bool). record (seen_by_script c) {
        height = h;
        shown = o.bytes c.value;
        over_limit = v;
      })
      (ap (λ n. min (o.height c.value) n) (truthy_or-nonzero o.max_height 220))
      (too_long-over o c.value)

submit-seen :
    (o : Options) (c : Composer)
    → submit_form o (seen_by_script c) ≡ seen_by_script (submit (as_module o) c)
unfolding submit_form submit emit effect
submit-seen o c =
    if_same seen_by_script c.destroyed c.destroyed _ _ _ _ refl (answer-seen refused c) (
      if_same seen_by_script (o.blank c.value || (too_long o c.value || c.submitting))
        (o.blank c.value || (over (as_module o) c.value || c.submitting)) _ _ _ _
        (ap (λ b. o.blank c.value || (b || c.submitting)) (too_long-over o c.value))
        (answer-seen ignored c) refl)

finish-seen :
    (a : Answer) (c : Composer)
    → leave (as_script a) (seen_by_script c) ≡ seen_by_script (finish a c)
unfolding leave finish
finish-seen a c =
    ap (return_from (as_script a)) (
      if_same seen_by_script c.destroyed c.destroyed _ _ c (record c { submitting = false }) refl
        refl refl)
    ∙ answer-seen a (if c.destroyed then c else record c { submitting = false })

accept-seen :
    (o : Options) (kept : Bool) (s : Submission) (c : Composer)
    → take_result o kept s (seen_by_script c) ≡ seen_by_script (accept (as_module o) kept s c)
unfolding take_result accept
accept-seen o true s c =
    let goes =
      not c.destroyed && (true && (same_value c.value s.value && c.revision == s.revision)) in
    ap (leave accepted) (
      if_same seen_by_script goes goes _ _ (sync (as_module o) (record c { value = "" })) c refl
        (sync-seen o (record c { value = "" })) refl)
    ∙ finish-seen accepted _
accept-seen o false s c =
    let goes =
      not c.destroyed && (false && (same_value c.value s.value && c.revision == s.revision)) in
    ap (leave declined) (
      if_same seen_by_script goes goes _ _ (sync (as_module o) (record c { value = "" })) c refl
        (sync-seen o (record c { value = "" })) refl)
    ∙ finish-seen declined _

dispatched-seen :
    (c : Composer)
    → leave failed (emit error_dispatched (seen_by_script c))
      ≡ seen_by_script (finish failed (effect error_dispatched c))
unfolding emit effect
dispatched-seen c = finish-seen failed (effect error_dispatched c)

reject-seen :
    (o : Options) (s : Submission) (c : Composer)
    → take_error o s (seen_by_script c) ≡ seen_by_script (reject (as_module o) s c)
unfolding take_error reject emit effect
reject-seen o s c =
    if_same seen_by_script c.destroyed c.destroyed _ _ _ _ refl (finish-seen failed c)
      (if_same seen_by_script o.handles o.handles _ _ _ _ refl refl (dispatched-seen c))

handled-seen :
    (thrown : Bool) (c : Composer)
    → after_handler thrown (seen_by_script c) ≡ seen_by_script (handled thrown c)
unfolding after_handler handled
handled-seen true c = dispatched-seen c
handled-seen false c = finish-seen failed c

resume-seen :
    (o : Options) (s : Submission) (outcome : Outcome) (c : Composer)
    → go_on o s outcome (seen_by_script c) ≡ seen_by_script (resume (as_module o) s outcome c)
unfolding go_on resume
resume-seen o s outcome c = resumed s.value s.revision s.stage outcome
  where
    resumed :
        (value : String) (revision : ℕ) (stage : Stage) (result : Outcome)
        → go_on o
            (record { value = value; revision = revision; stage = stage })
            result
            (seen_by_script c)
          ≡ seen_by_script (
              resume
                (as_module o)
                (record { value = value; revision = revision; stage = stage })
                result
                c)
    resumed value revision sending gave_false = accept-seen o false _ c
    resumed value revision sending gave_other = accept-seen o true _ c
    resumed value revision sending threw = reject-seen o _ c
    resumed value revision handling gave_false = handled-seen false c
    resumed value revision handling gave_other = handled-seen false c
    resumed value revision handling threw = handled-seen true c

settled-seen :
    (o : Options) (found : Option (Submission × List Submission)) (outcome : Outcome) (c : Composer)
    → go_on_at o found outcome (seen_by_script c)
      ≡ seen_by_script (resume_at (as_module o) found outcome c)
unfolding go_on_at resume_at
settled-seen o none outcome c = refl
settled-seen o (some (s, rest)) outcome c = resume-seen o s outcome (record c { waiting = rest })

sends-seen : (o : Options) (k : Key) → key_sends o k ≡ sends (as_module o) k
unfolding key_sends sends
sends-seen o k = ground arith

step-seen :
    (o : Options) (e : Event) (c : Composer)
    → happen o e (seen_by_script c) ≡ seen_by_script (step (as_module o) e c)
unfolding happen step input_heard on_input key_heard on_key submit_heard on_submit tear_down destroy
step-seen o called c = submit-seen o c
step-seen o (typed value) c =
    if_same seen_by_script c.destroyed c.destroyed _ _ _ _ refl refl
      (sync-seen o (record c { value = value; revision = suc c.revision }))
step-seen o (assigned value) c = refl
step-seen o (pressed k) c =
    if_same seen_by_script (not c.destroyed && key_sends o k)
      (not c.destroyed && sends (as_module o) k) _ _ _ c
      (ap (λ b. not c.destroyed && b) (sends-seen o k)) (submit-seen o c) refl
step-seen o form_submitted c =
    if_same seen_by_script c.destroyed c.destroyed _ _ c _ refl refl (submit-seen o c)
step-seen o (settled i outcome) c = settled-seen o (take_at i c.waiting) outcome c
step-seen o torn_down c = refl

run-seen :
    (o : Options) (l : List Event) (c : Composer)
    → play o l (seen_by_script c) ≡ seen_by_script (run (as_module o) l c)
unfolding play run
run-seen o [] c = refl
run-seen o (e ∷ l) c = ap (play o l) (step-seen o e c) ∙ run-seen o l (step (as_module o) e c)

-- In every run the composer of the script is in the state of the module's, with the options that the
-- script reads as absent left out (a limit of zero), except that `submit` returns false where that of
-- the module returns nothing.
pub play-run :
    (o : Options) (value : String) (l : List Event)
    → play o l (mount_composer o value)
      ≡ seen_by_script (run (as_module o) l (bind (as_module o) value))
unfolding mount_composer bind
play-run o value l = ap (play o l) (sync-seen o _) ∙ run-seen o l _
