-- ===== src/Global/Composer.antt =====
-- `WG.mountComposer` of priv/ui/wiregrid.js, on the state of `bindComposer`. An `await` ends a step;
-- what waits is an entry of `waiting`.
use wiregrid.Base.{
  ℕ, zero, suc, String, Bool, true, false, not, ◌&&◌, ◌||◌, Option, none, some, List, [], ◌∷◌, ◌++◌,
  ltb, ◌==◌, min, if◌then◌else◌,
}
use wiregrid.Composer.Types.{
  sending, handling, Submission, refused, accepted, declined, failed, Answer, submit_called,
  error_called, error_dispatched, Effect, Options, Key, Composer, Outcome, gave_false, gave_other,
  threw, Event, called, typed, assigned, pressed, form_submitted, settled, torn_down,
}
use wiregrid.Composer.Ops.{same_value, take_at}

-- `value || fallback`: zero counts as none.
unfoldable pub truthy_or : Option ℕ → ℕ → ℕ
truthy_or none fallback = fallback
truthy_or (some zero) fallback = fallback
truthy_or (some (suc n)) fallback = suc n

unfoldable pub emit : Effect → Composer → Composer
emit e c = record c { effects = c.effects ++ e ∷ [] }

unfoldable pub return_from : Answer → Composer → Composer
return_from a c = record c { answers = c.answers ++ a ∷ [] }

unfoldable pub too_long : Options → String → Bool
unfolding truthy_or
too_long o value = ltb (truthy_or o.max_bytes 65536) (o.bytes value)

unfoldable pub sync_form : Options → Composer → Composer
unfolding truthy_or
sync_form o c = record c {
  height = min (o.height c.value) (truthy_or o.max_height 220);
  shown = o.bytes c.value;
  over_limit = too_long o c.value;
}

unfoldable pub submit_form : Options → Composer → Composer
unfolding emit return_from
submit_form o c =
    if c.destroyed
    then return_from refused c
    else if o.blank c.value || (too_long o c.value || c.submitting)
    then return_from refused c
    else emit (submit_called c.value) (record c {
      submitting = true;
      waiting =
          c.waiting ++ record { value = c.value; revision = c.revision; stage = sending } ∷ [];
    })

-- The `finally` block, with what is returned.
unfoldable pub leave : Answer → Composer → Composer
unfolding return_from
leave a c = return_from a (if c.destroyed then c else record c { submitting = false })

-- `onSubmit` gave `false`, or something else.
unfoldable pub take_result : Options → Bool → Submission → Composer → Composer
unfolding sync_form
take_result o kept s c = leave (if kept then accepted else declined) (
    if not c.destroyed && (kept && (same_value c.value s.value && c.revision == s.revision))
    then sync_form o (record c { value = "" })
    else c)

-- `onSubmit` threw.
unfoldable pub take_error : Options → Submission → Composer → Composer
unfolding emit
take_error o s c =
    if c.destroyed
    then leave failed c
    else if o.handles
    then emit error_called (record c {
      waiting =
          c.waiting ++ record { value = s.value; revision = s.revision; stage = handling } ∷ [];
    })
    else leave failed (emit error_dispatched c)

-- `onError` ended.
unfoldable pub after_handler : Bool → Composer → Composer
unfolding emit
after_handler thrown c = leave failed (if thrown then emit error_dispatched c else c)

unfoldable pub go_on : Options → Submission → Outcome → Composer → Composer
go_on o s outcome c = elim s.stage [
  | sending ↦ elim outcome [
    | gave_false ↦ take_result o false s c
    | gave_other ↦ take_result o true s c
    | threw ↦ take_error o s c
  ]
  | handling ↦ elim outcome [
    | gave_false ↦ after_handler false c
    | gave_other ↦ after_handler false c
    | threw ↦ after_handler true c
  ]
]

unfoldable pub go_on_at :
    Options → Option (Submission × List Submission) → Outcome → Composer → Composer
go_on_at o none outcome c = c
go_on_at o (some (s, rest)) outcome c = go_on o s outcome (record c { waiting = rest })

unfoldable pub input_heard : Options → String → Composer → Composer
unfolding sync_form
input_heard o value c =
    if c.destroyed
    then record c { value = value }
    else sync_form o (record c { value = value; revision = suc c.revision })

unfoldable pub key_sends : Options → Key → Bool
key_sends o k =
    k.enter
    && (not k.shift
        && (not k.alt && (not k.ctrl && (not k.meta && (not k.composing && o.enter_to_send)))))

unfoldable pub key_heard : Options → Key → Composer → Composer
key_heard o k c = if not c.destroyed && key_sends o k then submit_form o c else c

unfoldable pub submit_heard : Options → Composer → Composer
submit_heard o c = if c.destroyed then c else submit_form o c

unfoldable pub tear_down : Composer → Composer
tear_down c = record c { destroyed = true; submitting = false }

unfoldable pub happen : Options → Event → Composer → Composer
unfolding tear_down
happen o called c = submit_form o c
happen o (typed value) c = input_heard o value c
happen o (assigned value) c = record c { value = value }
happen o (pressed k) c = key_heard o k c
happen o form_submitted c = submit_heard o c
happen o (settled i outcome) c = go_on_at o (take_at i c.waiting) outcome c
happen o torn_down c = tear_down c

unfoldable pub play : Options → List Event → Composer → Composer
play o [] c = c
play o (e ∷ l) c = play o l (happen o e c)

unfoldable pub mount_composer : Options → String → Composer
unfolding sync_form
mount_composer o value = sync_form o (record {
  value = value;
  revision = 0;
  destroyed = false;
  submitting = false;
  over_limit = false;
  shown = 0;
  height = 0;
  waiting = [];
  answers = [];
  effects = [];
})
