-- ===== src/Composer/Sending.antt =====
-- What a composer sends (priv/ui/js/composer.js).
use wiregrid.Base.{
  ℕ, zero, suc, ◌+◌, ◌≤◌, ◌≡◌, refl, sym, ap, subst, String, Bool, true, false, not, ◌&&◌, ◌||◌,
  some, List, [], ◌∷◌, ◌++◌, ltb, ◌==◌, length, total, All, arith, if◌then◌else◌, if_either, inl,
  inr, Option-cases,
}
use wiregrid.Composer.Types.{
  Stage, sending, handling, Submission, Answer, refused, ignored, accepted, declined, failed,
  Effect, submit_called, error_called, error_dispatched, Options, Composer, Outcome, gave_false,
  gave_other, threw, Event, called, typed, assigned, pressed, form_submitted, settled, torn_down,
}
use wiregrid.Composer.Ops.{
  effect, answer, over, sync, submit, finish, accept, reject, handled, resume, take_at, resume_at,
  on_input, on_key, on_submit, destroy, step, run, bind, sends, same_value, resize,
}

-- A text that may be sent.
abbrev pub Sendable : Options → Effect → Type 0
Sendable o (submit_called text) = (o.blank text ≡ false) × (over o text ≡ false)
Sendable o error_called = Unit {0}
Sendable o error_dispatched = Unit {0}

abbrev pub sent : Effect → ℕ
sent (submit_called text) = 1
sent error_called = 0
sent error_dispatched = 0

-- The answers to a call that has sent its text.
abbrev pub ended : Answer → ℕ
ended refused = 0
ended ignored = 0
ended accepted = 1
ended declined = 1
ended failed = 1

-- `running` is the number of calls that have sent their text and are not answered.
pub record Books (o : Options) (destroyed submitting : Bool) (running : ℕ) (answers : List Answer)
    (effects : List Effect) : Type 0 where
  pub one : running ≤ 1
  pub busy : destroyed ≡ false → submitting ≡ ltb 0 running
  pub down : destroyed ≡ true → submitting ≡ false
  pub allowed : All (Sendable o) effects
  pub counted : total sent effects ≡ total ended answers + running

abbrev pub HasBooks : Options → Composer → Type 0
HasBooks o c = Books o c.destroyed c.submitting (length c.waiting) c.answers c.effects

-- While a submission is resumed it is not among those that wait.
abbrev Resuming : Options → Composer → Type 0
Resuming o c = (length c.waiting ≡ 0) × Books o c.destroyed c.submitting 1 c.answers c.effects

total-snoc : {A : Type 0} (f : A → ℕ) (l : List A) (x : A) → total f (l ++ x ∷ []) ≡ total f l + f x
total-snoc f [] x = omega arith
total-snoc f (y ∷ l) x = omega (arith, total-snoc f l x)

All-snoc : {A : Type 0} (P : A → Type 0) (l : List A) (x : A) → All P l → P x → All P (l ++ x ∷ [])
All-snoc P [] x h p = (p, tt)
All-snoc P (y ∷ l) x h p = (h.0, All-snoc P l x h.1 p)

length-snoc : {A : Type 0} (l : List A) (x : A) → length (l ++ x ∷ []) ≡ suc (length l)
length-snoc [] x = refl
length-snoc (y ∷ l) x = ap suc (length-snoc l x)

effect-Books :
    (o : Options) (e : Effect) (d s : Bool) (n : ℕ) (ns : List Answer) (es : List Effect)
    → sent e ≡ 0
    → Sendable o e
    → Books o d s n ns es
    → Books o d s n ns (es ++ e ∷ [])
effect-Books o e d s n ns es h p v = record {
  one = v.one;
  busy = v.busy;
  down = v.down;
  allowed = All-snoc (Sendable o) es e v.allowed p;
  counted = omega (arith, total-snoc sent es e, v.counted);
}

sync-HasBooks : (o : Options) (c : Composer) → HasBooks o c → HasBooks o (sync o c)
unfolding sync resize
sync-HasBooks o c v = v

idle_answer-HasBooks :
    (o : Options) (a : Answer) (c : Composer) → ended a ≡ 0 → HasBooks o c → HasBooks o (answer a c)
unfolding answer
idle_answer-HasBooks o a c h v = record {
  one = v.one;
  busy = v.busy;
  down = v.down;
  allowed = v.allowed;
  counted = omega (arith, total-snoc ended c.answers a, v.counted);
}

submit-HasBooks : (o : Options) (c : Composer) → HasBooks o c → HasBooks o (submit o c)
unfolding submit effect
submit-HasBooks o c v =
    if_either (HasBooks o) c.destroyed (λ _. idle_answer-HasBooks o refused c refl v)
      (λ open_e.
        if_either (HasBooks o) (o.blank c.value || (over o c.value || c.submitting))
          (λ _. idle_answer-HasBooks o ignored c refl v)
          (λ e.
            let idle : ltb 0 (length c.waiting) ≡ false = ground (arith, v.busy open_e) in
            let none_waits : length c.waiting ≡ 0 = ground arith in
            let entry : Submission = record {
              value = c.value;
              revision = c.revision;
              stage = sending;
            } in
            let grown = length-snoc c.waiting entry in
            record {
              one = omega arith;
              busy = λ _. ground arith;
              down = λ p. absurd (ground arith);
              allowed =
                  All-snoc (Sendable o) c.effects (submit_called c.value) v.allowed
                    (ground arith, ground arith);
              counted = omega (arith, total-snoc sent c.effects (submit_called c.value), v.counted);
            }))

finish-HasBooks :
    (o : Options) (a : Answer) (c : Composer) → ended a ≡ 1 → Resuming o c → HasBooks o (finish a c)
unfolding finish answer
finish-HasBooks o a c h (e, v) =
    let added : total ended (c.answers ++ a ∷ []) ≡ total ended c.answers + 1 =
      omega (arith, total-snoc ended c.answers a) in
    if_either (λ u. HasBooks o (answer a u)) c.destroyed
      (λ d. record {
        one = omega arith;
        busy = λ p. absurd (ground arith);
        down = v.down;
        allowed = v.allowed;
        counted = omega (arith, v.counted);
      })
      (λ d. record {
        one = omega arith;
        busy = λ p. ground arith;
        down = λ p. refl;
        allowed = v.allowed;
        counted = omega (arith, v.counted);
      })

accept-HasBooks :
    (o : Options) (kept : Bool) (s : Submission) (c : Composer)
    → Resuming o c
    → HasBooks o (accept o kept s c)
unfolding accept sync resize
accept-HasBooks o kept s c v =
    if_either (λ u. HasBooks o (finish (if kept then accepted else declined) u))
      (not c.destroyed && (kept && (same_value c.value s.value && (c.revision == s.revision))))
      (λ _.
        finish-HasBooks o (if kept then accepted else declined) (sync o (record c { value = "" }))
          (counts kept) v)
      (λ _. finish-HasBooks o (if kept then accepted else declined) c (counts kept) v)
  where
    counts : (b : Bool) → ended (if b then accepted else declined) ≡ 1
    counts true = refl
    counts false = refl

failing-HasBooks :
    (o : Options) (c : Composer)
    → Resuming o c
    → HasBooks o (finish failed (effect error_dispatched c))
unfolding effect
failing-HasBooks o c (e, v) =
    finish-HasBooks o failed (effect error_dispatched c) refl
      (e, effect-Books o error_dispatched c.destroyed c.submitting 1 c.answers c.effects refl tt v)

reject-HasBooks :
    (o : Options) (s : Submission) (c : Composer) → Resuming o c → HasBooks o (reject o s c)
unfolding reject effect
reject-HasBooks o s c v =
    if_either (HasBooks o) c.destroyed (λ _. finish-HasBooks o failed c refl v)
      (λ _.
        if_either (HasBooks o) o.handles
          (λ _.
            let entry : Submission = record {
              value = s.value;
              revision = s.revision;
              stage = handling;
            } in
            let grown : length (c.waiting ++ entry ∷ []) ≡ 1 =
              omega (arith, length-snoc c.waiting entry, v.0) in
            subst
              (λ n. Books o c.destroyed c.submitting n c.answers (c.effects ++ error_called ∷ []))
              (sym grown)
              (effect-Books o error_called c.destroyed c.submitting 1 c.answers c.effects refl tt
                v.1))
          (λ _. failing-HasBooks o c v))

handled-HasBooks :
    (o : Options) (thrown : Bool) (c : Composer) → Resuming o c → HasBooks o (handled thrown c)
unfolding handled
handled-HasBooks o true c v = failing-HasBooks o c v
handled-HasBooks o false c v = finish-HasBooks o failed c refl v

resume-HasBooks :
    (o : Options) (s : Submission) (outcome : Outcome) (c : Composer)
    → Resuming o c
    → HasBooks o (resume o s outcome c)
unfolding resume
resume-HasBooks o s outcome c v = resumed s.value s.revision s.stage outcome
  where
    resumed :
        (value : String) (revision : ℕ) (stage : Stage) (result : Outcome)
        → HasBooks o
            (resume o (record { value = value; revision = revision; stage = stage }) result c)
    resumed value revision sending gave_false =
        accept-HasBooks o false (record { value = value; revision = revision; stage = sending }) c v
    resumed value revision sending gave_other =
        accept-HasBooks o true (record { value = value; revision = revision; stage = sending }) c v
    resumed value revision sending threw =
        reject-HasBooks o (record { value = value; revision = revision; stage = sending }) c v
    resumed value revision handling gave_false = handled-HasBooks o false c v
    resumed value revision handling gave_other = handled-HasBooks o false c v
    resumed value revision handling threw = handled-HasBooks o true c v

take_at-length :
    (i : ℕ) (l : List Submission) (s : Submission) (rest : List Submission)
    → take_at i l ≡ some (s, rest)
    → length l ≡ suc (length rest)
unfolding take_at
take_at-length i [] s rest h = absurd (ground arith)
take_at-length zero (x ∷ l) s rest h = ground arith
take_at-length (suc i) (x ∷ l) s rest h = elim (Option-cases (take_at i l)) [
  | inl e ↦ absurd (ground arith)
  | inr ((found, others), e) ↦ ground (arith, take_at-length i l found others e)
]

settled-HasBooks :
    (o : Options) (i : ℕ) (outcome : Outcome) (c : Composer)
    → HasBooks o c
    → HasBooks o (resume_at o (take_at i c.waiting) outcome c)
unfolding resume_at
settled-HasBooks o i outcome c v = elim (Option-cases (take_at i c.waiting)) [
  | inl e ↦ rw (e) v
  | inr ((s, rest), e) ↦
      let shorter = take_at-length i c.waiting s rest e in
      let alone : length rest ≡ 0 = omega (arith, v.one) in
      let all_of : length c.waiting ≡ 1 = omega arith in
      rw (e) (
        resume-HasBooks o s outcome (record c { waiting = rest })
          (alone, subst (λ n. Books o c.destroyed c.submitting n c.answers c.effects) all_of v))
]

pub step-HasBooks :
    (o : Options) (e : Event) (c : Composer) → HasBooks o c → HasBooks o (step o e c)
unfolding step on_input on_key on_submit destroy sync resize
step-HasBooks o called c v = submit-HasBooks o c v
step-HasBooks o (typed text) c v = if_either (HasBooks o) c.destroyed (λ _. v) (λ _. v)
step-HasBooks o (assigned text) c v = v
step-HasBooks o (pressed k) c v =
    if_either (HasBooks o) (not c.destroyed && sends o k) (λ _. submit-HasBooks o c v) (λ _. v)
step-HasBooks o form_submitted c v =
    if_either (HasBooks o) c.destroyed (λ _. v) (λ _. submit-HasBooks o c v)
step-HasBooks o (settled i outcome) c v = settled-HasBooks o i outcome c v
step-HasBooks o torn_down c v = record {
  one = v.one;
  busy = λ p. absurd (ground arith);
  down = λ _. refl;
  allowed = v.allowed;
  counted = v.counted;
}

kept_in_run : (o : Options) (l : List Event) (c : Composer) → HasBooks o c → HasBooks o (run o l c)
unfolding run
kept_in_run o [] c v = v
kept_in_run o (e ∷ l) c v = kept_in_run o l (step o e c) (step-HasBooks o e c v)

-- In every run of a composer at most one submission is under way, `submitting` says whether one is
-- until the composer is destroyed and is off after it, each text that was sent was neither blank nor
-- over the limit, and each call that sent one is under way or was answered, once.
pub run-bind-HasBooks :
    (o : Options) (value : String) (l : List Event) → HasBooks o (run o l (bind o value))
unfolding bind sync resize
run-bind-HasBooks o value l =
    kept_in_run o l (bind o value) (record {
      one = omega arith;
      busy = λ _. refl;
      down = λ _. refl;
      allowed = tt;
      counted = refl;
    })
