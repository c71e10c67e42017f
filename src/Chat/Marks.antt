-- ===== src/Chat/Marks.antt =====
-- Every mark of a jump ends (priv/ui/js/chat.js).
use wiregrid.Base.{
  ℕ, zero, suc, ◌≡◌, refl, sym, subst, ◌∙◌, Option, none, some, List, [], ◌∷◌, ◌++◌, All, arith,
  if_pos, if_neg, ℕ_discrete, ◌⊎◌, inl, inr, Option-cases, or_else,
}
use wiregrid.Timeline.Types.{Node}
use wiregrid.Timeline.Dom.{rows}
use wiregrid.Chat.Buttons.{Among}
use wiregrid.Chat.Rows.{has_id, find_node}
use wiregrid.Chat.Jumping.{
  Timer, Page, PageEvent, jump_called, timer_fired, unmark, take_timer, mark_node, jump_to_message,
  end_highlight, page_step, page_run,
}

-- A timer of the element is pending.
abbrev pub Ticking : List Timer → ℕ → Type 0
Ticking timers r = Among (λ (t : Timer). r ≡ t.element) timers

Among-append : (r : ℕ) (l m : List Timer) → Ticking l r ⊎ Ticking m r → Ticking (l ++ m) r
Among-append r [] m (inl h) = absurd h
Among-append r [] m (inr h) = h
Among-append r (x ∷ l) m (inl (inl h)) = inl h
Among-append r (x ∷ l) m (inl (inr h)) = inr (Among-append r l m (inl h))
Among-append r (x ∷ l) m (inr h) = inr (Among-append r l m (inr h))

-- What was ticking but is not the timer that fires still ticks.
take_timer-Ticking :
    (i r : ℕ) (timers rest : List Timer)
    → take_timer i timers ≡ some (r, rest)
    → (x : ℕ) → Ticking timers x
    → (x ≡ r) ⊎ Ticking rest x
unfolding take_timer
take_timer-Ticking i r [] rest e x h = absurd h
take_timer-Ticking zero r (y ∷ l) rest e x h =
    let same : y.element ≡ r = ground arith in
    let others : l ≡ rest = ground arith in
    elim h [ inl p ↦ inl (p ∙ same) | inr t ↦ inr (subst (λ m. Ticking m x) others t) ]
take_timer-Ticking (suc i) r (y ∷ l) rest e x h = elim (Option-cases (take_timer i l)) [
  | inl q ↦ absurd (ground arith)
  | inr ((found, rs), q) ↦
      let same : found ≡ r = ground arith in
      let others : y ∷ rs ≡ rest = ground arith in
      let step = take_timer-Ticking i found l rs q x in
      subst (λ m. (x ≡ r) ⊎ Ticking m x) others
        (elim h [
          | inl p ↦ inr (inl p)
          | inr t ↦ elim (step t) [ inl w ↦ inl (w ∙ same) | inr u ↦ inr (inr u) ]
        ])
]

unmark-Ticking :
    (r : ℕ) (marks : List ℕ) (timers rest : List Timer)
    → ((x : ℕ) → Ticking timers x → (x ≡ r) ⊎ Ticking rest x)
    → All (Ticking timers) marks
    → All (Ticking rest) (unmark r marks)
unfolding unmark
unmark-Ticking r [] timers rest f h = tt
unmark-Ticking r (x ∷ marks) timers rest f h = elim (ℕ_discrete x r) [
  | yes p ↦ rw (if_pos _ p) (unmark-Ticking r marks timers rest f h.1)
  | no p ↦ rw (if_neg _ p) (
    elim (f x h.0) [ inl e ↦ absurd (p e) | inr t ↦ t ],
    unmark-Ticking r marks timers rest f h.1,
  )
]

none_left : (l : List ℕ) → All (Ticking []) l → l ≡ []
none_left [] h = refl
none_left (x ∷ l) h = absurd h.0

module _ {A : Type 0} where
  -- Every mark has a timer that takes it away.
  abbrev pub Ends : Page A → Type 0
  Ends p = All (Ticking p.timers) p.highlighted

  mark-Ends :
      (duration : ℕ) (found : Option (Node A)) (p : Page A)
      → Ends p
      → Ends (mark_node duration found p).1
  unfolding mark_node
  mark-Ends duration none p v = v
  mark-Ends duration (some n) p v =
      let timer : Timer = record { element = n.ref; delay = duration } in
      (
        Among-append n.ref p.timers (timer ∷ []) (inr (inl refl)),
        unmark-Ticking n.ref p.highlighted p.timers (p.timers ++ timer ∷ [])
            (λ x t. inr (Among-append x p.timers (timer ∷ []) (inl t))) v,
      )

  end-Ends : (i : ℕ) (p : Page A) → Ends p → Ends (end_highlight (take_timer i p.timers) p)
  unfolding end_highlight
  end-Ends i p v = elim (Option-cases (take_timer i p.timers)) [
    | inl e ↦ rw e v
    | inr ((r, rest), e) ↦
        rw e
          (unmark-Ticking r p.highlighted p.timers rest (take_timer-Ticking i r p.timers rest e) v)
  ]

  run-Ends : (l : List PageEvent) (p : Page A) → Ends p → Ends (page_run l p)
  unfolding page_run page_step jump_to_message
  run-Ends [] p v = v
  run-Ends (jump_called id duration ∷ l) p v =
      run-Ends l (jump_to_message id duration p).1
        (mark-Ends (or_else duration 1400) (find_node (has_id id) (rows p.children)) p v)
  run-Ends (timer_fired i ∷ l) p v =
      run-Ends l (end_highlight (take_timer i p.timers) p) (end-Ends i p v)

  -- In a page where no row is marked, in any run of jumps and timers every marked row has a timer
  -- that is still to fire, so that no mark is left when no timer is.
  pub page_run-Ends :
      (l : List PageEvent) (p : Page A)
      → p.highlighted ≡ []
      → Ends (page_run l p) × ((page_run l p).timers ≡ [] → (page_run l p).highlighted ≡ [])
  page_run-Ends l p e =
      let ends = run-Ends l p (subst (All (Ticking p.timers)) (sym e) tt) in
      (
        ends,
        λ t.
            none_left (page_run l p).highlighted
              (subst (λ m. All (Ticking m) (page_run l p).highlighted) t ends),
      )
