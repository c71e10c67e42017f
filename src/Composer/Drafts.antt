-- ===== src/Composer/Drafts.antt =====
-- When the text of a composer is cleared (priv/ui/js/composer.js).
use wiregrid.Base.{
  ℕ, ◌≡◌, refl, String, Bool, true, false, not, ◌&&◌, ◌==◌, ◌⊎◌, inl, inr, arith, if_either, if_pos,
  String_discrete,
}
use wiregrid.Composer.Types.{
  Stage, sending, handling, Submission, Answer, accepted, declined, failed, error_dispatched,
  Options, Composer, Outcome, gave_false, gave_other, threw,
}
use wiregrid.Composer.Ops.{
  effect, answer, sync, finish, accept, reject, handled, resume, same_value, resize,
}

-- The text is what was sent, untouched since, in a composer that is there, and sending it succeeded.
abbrev pub Done : Submission → Outcome → Composer → Type 0
Done s outcome c =
    (c.value ≡ s.value)
    × (c.revision ≡ s.revision)
    × (c.destroyed ≡ false)
    × (s.stage ≡ sending)
    × (outcome ≡ gave_other)

-- The text after, where `Done` held before or did not.
abbrev pub Kept : Submission → Outcome → Composer → String → Type 0
Kept s outcome c text = (Done s outcome c × (text ≡ "")) ⊎ (¬ (Done s outcome c) × (text ≡ c.value))

finish-value : (P : String → Type 0) (a : Answer) (c : Composer) → P c.value → P (finish a c).value
unfolding finish answer
finish-value P a c h = if_either (λ u. P (answer a u).value) c.destroyed (λ _. h) (λ _. h)

same_value_lem : (a b : String) → same_value a b ≡ true → a ≡ b
unfolding same_value
same_value_lem a b h = elim (String_discrete a b) [ yes p ↦ p | no p ↦ absurd (ground arith) ]

same_value_of : (a b : String) → a ≡ b → same_value a b ≡ true
unfolding same_value
same_value_of a b e = if_pos (String_discrete a b) e _ _

accept-Kept :
    (o : Options) (s : Submission) (c : Composer)
    → s.stage ≡ sending
    → Kept s gave_other c (accept o true s c).value
unfolding accept sync resize
accept-Kept o s c st =
    if_either (λ (u : Composer). Kept s gave_other c (finish accepted u).value)
      (not c.destroyed && (true && (same_value c.value s.value && (c.revision == s.revision))))
      (λ e.
        let same : same_value c.value s.value ≡ true = ground arith in
        let done : Done s gave_other c =
          (same_value_lem c.value s.value same, ground arith, ground arith, st, refl) in
        finish-value (Kept s gave_other c) accepted (sync o (record c { value = "" }))
          (inl (done, refl)))
      (λ e. finish-value (Kept s gave_other c) accepted c (
        inr
          (λ done. ground (arith, same_value_of c.value s.value done.0, done.1, done.2, e), refl)))

declined-value :
    (o : Options) (s : Submission) (c : Composer) → (accept o false s c).value ≡ c.value
unfolding accept
declined-value o s c =
    if_either (λ (u : Composer). (finish declined u).value ≡ c.value) (not c.destroyed && false)
      (λ e. absurd (ground arith)) (λ _. finish-value (λ text. text ≡ c.value) declined c refl)

failing-value : (c : Composer) → (finish failed (effect error_dispatched c)).value ≡ c.value
unfolding effect
failing-value c = finish-value (λ text. text ≡ c.value) failed (effect error_dispatched c) refl

reject-value : (o : Options) (s : Submission) (c : Composer) → (reject o s c).value ≡ c.value
unfolding reject effect
reject-value o s c =
    if_either (λ (u : Composer). u.value ≡ c.value) c.destroyed
      (λ _. finish-value (λ text. text ≡ c.value) failed c refl)
      (λ _.
        if_either (λ (u : Composer). u.value ≡ c.value) o.handles (λ _. refl)
          (λ _. failing-value c))

handled-value : (thrown : Bool) (c : Composer) → (handled thrown c).value ≡ c.value
unfolding handled
handled-value true c = failing-value c
handled-value false c = finish-value (λ text. text ≡ c.value) failed c refl

-- When a call of `submit` goes on, the text is cleared if it is what that call sent, untouched since,
-- the composer is not destroyed and `onSubmit` gave no error and not false; otherwise it stays.
pub resume-Kept :
    (o : Options) (s : Submission) (outcome : Outcome) (c : Composer)
    → Kept s outcome c (resume o s outcome c).value
unfolding resume
resume-Kept o s outcome c = resumed s.value s.revision s.stage outcome
  where
    resumed :
        (value : String) (revision : ℕ) (stage : Stage) (result : Outcome)
        → Kept
            (record { value = value; revision = revision; stage = stage })
            result
            c
            (resume o (record { value = value; revision = revision; stage = stage }) result c).value
    resumed value revision sending gave_false =
        inr (λ done. absurd (ground (arith, done.4)), declined-value o _ c)
    resumed value revision sending gave_other = accept-Kept o _ c refl
    resumed value revision sending threw =
        inr (λ done. absurd (ground (arith, done.4)), reject-value o _ c)
    resumed value revision handling gave_false =
        inr (λ done. absurd (ground (arith, done.3)), handled-value false c)
    resumed value revision handling gave_other =
        inr (λ done. absurd (ground (arith, done.3)), handled-value false c)
    resumed value revision handling threw =
        inr (λ done. absurd (ground (arith, done.3)), handled-value true c)
