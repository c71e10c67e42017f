-- ===== src/Overlays/Selecting.antt =====
-- Which tab is selected after a click or a key (priv/ui/js/overlays.js).
use wiregrid.Base.{
  ℕ, zero, suc, ◌+◌, ◌-◌, ◌%◌, ◌<◌, ◌≤◌, ◌==◌, ◌≡◌, refl, ap, ◌∙◌, ◌⊎◌, true, false, Option, none,
  some, List, [], ◌∷◌, length, ℕ_discrete, arith, All, Option-cases, Bool-cases, inl, inr,
}
use wiregrid.Base.JsMap.{JsMap, get, set, get-set_self, get-set_ne}
use wiregrid.Overlays.Tabs.{
  Tab, Marks, Tabs, mark_tab, mark_all, select_tab, index_from, TabKey, arrow_left, arrow_right,
  home, to_end, other_key, next_index, tab_at, go_to, press_key,
}

-- The tab is marked as selected exactly if it is `chosen`.
abbrev pub Marked : ℕ → JsMap ℕ Marks → Tab → Type 0
Marked chosen marks item =
    get ℕ_discrete item.element marks
    ≡ some (record { selected = item.element == chosen; in_order = item.element == chosen })

mark_tab-marks :
    (chosen : ℕ) (item : Tab) (t : Tabs)
    → (mark_tab chosen item t).marks
      ≡ set ℕ_discrete item.element
          (record { selected = item.element == chosen; in_order = item.element == chosen })
          t.marks
unfolding mark_tab
mark_tab-marks chosen item t = elim (Option-cases item.panel) [
  | inl e ↦ rw (mark_tab, e) refl
  | inr (p, e) ↦ rw (mark_tab, e) refl
]

mark_all_kept :
    (chosen : ℕ) (l : List Tab) (item : Tab) (t : Tabs)
    → Marked chosen t.marks item
    → Marked chosen (mark_all l chosen t).marks item
unfolding mark_all
mark_all_kept chosen [] item t h = h
mark_all_kept chosen (u ∷ l) item t h = mark_all_kept chosen l item (mark_tab chosen u t) (
    rw (mark_tab-marks chosen u t) (elim (ℕ_discrete item.element u.element) [
      | yes e ↦ rw e (get-set_self ℕ_discrete u.element _ t.marks)
      | no e ↦ get-set_ne ℕ_discrete u.element item.element _ t.marks e ∙ h
    ]))

mark_all-Marked :
    (chosen : ℕ) (l : List Tab) (t : Tabs) → All (Marked chosen (mark_all l chosen t).marks) l
unfolding mark_all
mark_all-Marked chosen [] t = tt
mark_all-Marked chosen (u ∷ l) t = (
  mark_all_kept chosen l u (mark_tab chosen u t)
      (rw (mark_tab-marks chosen u t) (get-set_self ℕ_discrete u.element _ t.marks)),
  mark_all-Marked chosen l (mark_tab chosen u t),
)

next_index-lt : (k : TabKey) (i n next : ℕ) → i < n → next_index k i n ≡ some next → next < n
unfolding next_index
next_index-lt arrow_left i n next h e = grind arith
next_index-lt arrow_right i n next h e = grind arith
next_index-lt home i n next h e = ground arith
next_index-lt to_end i n next h e = ground arith
next_index-lt other_key i n next h e = absurd (ground arith)

index_from-lt :
    (i : ℕ) (focused : Option ℕ) (l : List Tab) (j : ℕ)
    → index_from i focused l ≡ some j
    → (i ≤ j) × (j < i + length l)
unfolding index_from
index_from-lt i focused [] j e = absurd (ground arith)
index_from-lt i none (item ∷ l) j e = absurd (ground arith)
index_from-lt i (some f) (item ∷ l) j e = elim (Bool-cases (item.element == f)) [
  | inl p ↦ ground (arith, p)
  | inr p ↦ ground (arith, p, index_from-lt (suc i) (some f) l j)
]

tab_at-some : (i : ℕ) (l : List Tab) → i < length l → (item : Tab) × (tab_at i l ≡ some item)
unfolding tab_at
tab_at-some i [] h = absurd (omega arith)
tab_at-some zero (item ∷ l) h = (item, refl)
tab_at-some (suc i) (item ∷ l) h = tab_at-some i l (omega arith)

mark_tab-focused :
    (chosen : ℕ) (item : Tab) (t : Tabs) → (mark_tab chosen item t).focused ≡ t.focused
unfolding mark_tab
mark_tab-focused chosen item t = elim (Option-cases item.panel) [
  | inl e ↦ rw (mark_tab, e) refl
  | inr (p, e) ↦ rw (mark_tab, e) refl
]

mark_all-focused :
    (chosen : ℕ) (l : List Tab) (t : Tabs) → (mark_all l chosen t).focused ≡ t.focused
unfolding mark_all
mark_all-focused chosen [] t = refl
mark_all-focused chosen (u ∷ l) t =
    mark_all-focused chosen l (mark_tab chosen u t) ∙ mark_tab-focused chosen u t

-- The `j`-th tab has the focus and is the selected one.
pub record Chosen (t t' : Tabs) (j : ℕ) : Type 0 where
  pub item : Tab
  pub there : tab_at j t.tabs ≡ some item
  pub has_focus : t'.focused ≡ some item.element
  pub marked : All (Marked item.element t'.marks) t.tabs

go_to-Chosen :
    (j : ℕ) (t : Tabs)
    → j < length t.tabs
    → (t' : Tabs) × (go_to (tab_at j t.tabs) t ≡ some t') × Chosen t t' j
unfolding go_to select_tab
go_to-Chosen j t h =
    let (item, e) = tab_at-some j t.tabs h in
    let start = record t { focused = some item.element } in
    (
      mark_all t.tabs item.element start,
      rw (go_to, e) refl,
      record {
        item = item;
        there = e;
        has_focus = mark_all-focused item.element t.tabs start;
        marked = mark_all-Marked item.element t.tabs start;
      },
    )

no_next : (k : TabKey) (i n : ℕ) → next_index k i n ≡ none → k ≡ other_key
unfolding next_index
no_next arrow_left i n e = absurd (ground arith)
no_next arrow_right i n e = absurd (ground arith)
no_next home i n e = absurd (ground arith)
no_next to_end i n e = absurd (ground arith)
no_next other_key i n e = refl

-- The key does nothing: the listener is gone, no tab has the focus, or it is another key.
abbrev pub Ignored : TabKey → Tabs → Type 0
Ignored k t = (t.bound ≡ false) ⊎ ((index_from 0 t.focused t.tabs ≡ none) ⊎ (k ≡ other_key))

-- A key never goes out of range. Where the listener is there, a tab has the focus, and the key is an
-- arrow, Home or End, the tab that the key goes to has the focus afterwards and is the only one that
-- is marked as selected and is in the tab order; only otherwise, nothing changes.
pub press_key-Chosen :
    (k : TabKey) (t : Tabs)
    → (t' : Tabs) × (press_key k t ≡ some t')
      × ((Ignored k t × (t' ≡ t))
          ⊎ ((t.bound ≡ true)
              × ((i : ℕ) × (j : ℕ) × (index_from 0 t.focused t.tabs ≡ some i)
                  × (next_index k i (length t.tabs) ≡ some j)
                  × Chosen t t' j)))
unfolding press_key
press_key-Chosen k t = elim (Bool-cases t.bound) [
  | inr b ↦ (t, ground (arith, b), inl (inl b, refl))
  | inl b ↦ elim (Option-cases (index_from 0 t.focused t.tabs)) [
    | inl e ↦ (t, ground (arith, b, e), inl (inr (inl e), refl))
    | inr (i, e) ↦ elim (Option-cases (next_index k i (length t.tabs))) [
      | inl f ↦ (t, ground (arith, b, e, f), inl (inr (inr (no_next k i (length t.tabs) f)), refl))
      | inr (j, f) ↦
          let small : i < length t.tabs = omega (arith, index_from-lt 0 t.focused t.tabs i e) in
          let in_range = next_index-lt k i (length t.tabs) j small f in
          let (t', g, chosen) = go_to-Chosen j t in_range in
          (t', ground (arith, b, e, f, g), inr (b, (i, j, e, f, chosen)))
    ]
  ]
]

-- From each tab an arrow key and then the other lead back.
pub next_index_back :
    (i n : ℕ)
    → i < n
    → (j : ℕ) × (k : ℕ) × (next_index arrow_right i n ≡ some j)
      × (next_index arrow_left j n ≡ some i)
      × (next_index arrow_left i n ≡ some k)
      × (next_index arrow_right k n ≡ some i)
unfolding next_index
next_index_back i n h =
    ((i + 1 + n) % n, (i + n - 1) % n, refl, ap some (grind arith), refl, ap some (grind arith))
