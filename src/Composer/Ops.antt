-- ===== src/Composer/Ops.antt =====
-- The functions of `bindComposer` (priv/ui/js/composer.js). An `await` ends a step; what waits is an
-- entry of `waiting`.
use wiregrid.Base.{
  ℕ, zero, suc, String, Bool, true, false, not, ◌&&◌, ◌||◌, Option, none, some, List, [], ◌∷◌, ◌++◌,
  ltb, ◌==◌, min, or_else, if◌then◌else◌, String_discrete, ite,
}
use wiregrid.Composer.Types.{
  sending, handling, Submission, Answer, refused, ignored, accepted, declined, failed, Effect,
  submit_called, error_called, error_dispatched, Options, Key, Composer, Outcome, gave_false,
  gave_other, threw, Event, called, typed, assigned, pressed, form_submitted, settled, torn_down,
}

unfoldable pub effect : Effect → Composer → Composer
effect e c = record c { effects = c.effects ++ e ∷ [] }

unfoldable pub answer : Answer → Composer → Composer
answer a c = record c { answers = c.answers ++ a ∷ [] }

unfoldable pub resize : Options → Composer → Composer
resize o c = record c { height = min (o.height c.value) (or_else o.max_height 220) }

unfoldable pub max_bytes : Options → ℕ
max_bytes o = or_else o.max_bytes 65536

unfoldable pub over : Options → String → Bool
over o value = ltb (max_bytes o) (o.bytes value)

unfoldable pub sync : Options → Composer → Composer
sync o c =
    let c1 = resize o c in record c1 { shown = o.bytes c1.value; over_limit = over o c1.value }

-- `submit` up to its first `await`.
unfoldable pub submit : Options → Composer → Composer
unfolding effect answer
submit o c =
    if c.destroyed
    then answer refused c
    else if o.blank c.value || (over o c.value || c.submitting)
    then answer ignored c
    else effect (submit_called c.value) (record c {
      submitting = true;
      waiting =
          c.waiting ++ record { value = c.value; revision = c.revision; stage = sending } ∷ [];
    })

unfoldable pub same_value : String → String → Bool
same_value a b = ite (String_discrete a b) true false

-- The `finally` block, with what is returned.
unfoldable pub finish : Answer → Composer → Composer
unfolding answer
finish a c = answer a (if c.destroyed then c else record c { submitting = false })

-- `onSubmit` gave a result.
unfoldable pub accept : Options → Bool → Submission → Composer → Composer
unfolding sync
accept o kept s c = finish (if kept then accepted else declined) (
    if not c.destroyed && (kept && (same_value c.value s.value && c.revision == s.revision))
    then sync o (record c { value = "" })
    else c)

-- `onSubmit` threw. The call waits on if there is a handler, and ends otherwise.
unfoldable pub reject : Options → Submission → Composer → Composer
unfolding effect
reject o s c =
    if c.destroyed
    then finish failed c
    else if o.handles
    then effect error_called (record c {
      waiting =
          c.waiting ++ record { value = s.value; revision = s.revision; stage = handling } ∷ [];
    })
    else finish failed (effect error_dispatched c)

-- `onError` ended, with an error of its own or without.
unfoldable pub handled : Bool → Composer → Composer
unfolding effect
handled thrown c = finish failed (if thrown then effect error_dispatched c else c)

unfoldable pub resume : Options → Submission → Outcome → Composer → Composer
resume o s outcome c = elim s.stage [
  | sending ↦ elim outcome [
    | gave_false ↦ accept o false s c
    | gave_other ↦ accept o true s c
    | threw ↦ reject o s c
  ]
  | handling ↦ elim outcome [
    | gave_false ↦ handled false c
    | gave_other ↦ handled false c
    | threw ↦ handled true c
  ]
]

unfoldable pub take_at : ℕ → List Submission → Option (Submission × List Submission)
take_at i [] = none
take_at zero (s ∷ l) = some (s, l)
take_at (suc i) (s ∷ l) = elim (take_at i l) [
  | none ↦ none
  | some (found, rest) ↦ some (found, s ∷ rest)
]

unfoldable pub resume_at :
    Options → Option (Submission × List Submission) → Outcome → Composer → Composer
resume_at o none outcome c = c
resume_at o (some (s, rest)) outcome c = resume o s outcome (record c { waiting = rest })

unfoldable pub on_input : Options → String → Composer → Composer
unfolding sync
on_input o text c =
    if c.destroyed
    then record c { value = text }
    else sync o (record c { value = text; revision = suc c.revision })

unfoldable pub sends : Options → Key → Bool
sends o k =
    (k.enter && (not k.shift && (not k.alt && (not k.ctrl && not k.meta))))
    && (o.enter_to_send && not k.composing)

-- The listeners are gone once the composer is destroyed.
unfoldable pub on_key : Options → Key → Composer → Composer
on_key o k c = if not c.destroyed && sends o k then submit o c else c

unfoldable pub on_submit : Options → Composer → Composer
on_submit o c = if c.destroyed then c else submit o c

unfoldable pub destroy : Composer → Composer
destroy c = record c { destroyed = true; submitting = false }

unfoldable pub step : Options → Event → Composer → Composer
unfolding destroy
step o called c = submit o c
step o (typed text) c = on_input o text c
step o (assigned text) c = record c { value = text }
step o (pressed k) c = on_key o k c
step o form_submitted c = on_submit o c
step o (settled i outcome) c = resume_at o (take_at i c.waiting) outcome c
step o torn_down c = destroy c

unfoldable pub run : Options → List Event → Composer → Composer
run o [] c = c
run o (e ∷ l) c = run o l (step o e c)

-- The composer of a text area whose form is not submitting.
unfoldable pub bind : Options → String → Composer
unfolding sync
bind o value = sync o (record {
  value = value;
  revision = 0;
  destroyed = false;
  submitting = false;
  over_limit = false;
  shown = 0;
  height = 0;
  waiting = [];
  answers = [];
  effects = [];
})
