-- ===== src/Overlays/Trap.antt =====
-- The focus stays within an open overlay (priv/ui/js/overlays.js).
use wiregrid.Base.{
  ℕ, suc, Bool, true, false, ◌==◌, ◌≡◌, ap, ◌∙◌, ◌⊎◌, inl, inr, Option, none, some, List, [], ◌∷◌,
  arith, if◌then◌else◌, Bool-cases,
}
use wiregrid.Overlays.Overlay.{
  Overlay, OverlayKey, escape_key, other, tab_key, open_overlay, close_overlay, focus_on,
  focus_first, focus_previous, key_down, press_in,
}

-- What a browser does with the Tab key: the focus goes to the next of the elements in document order,
-- or to the one before. Beyond the ends it goes to `outside`, which may be anything.
tab_forward : (outside : Option ℕ) → ℕ → List ℕ → Option ℕ
tab_forward outside e [] = outside
tab_forward outside e (x ∷ []) = outside
tab_forward outside e (x ∷ y ∷ l) =
    let rest = tab_forward outside e (y ∷ l) in if x == e then some y else rest

tab_back : (outside : Option ℕ) → ℕ → List ℕ → Option ℕ
tab_back outside e [] = outside
tab_back outside e (x ∷ []) = outside
tab_back outside e (x ∷ y ∷ l) =
    let rest = tab_back outside e (y ∷ l) in if y == e then some x else rest

abbrev pub In : ℕ → List ℕ → Type 0
In e [] = ⊥
In e (x ∷ l) = (x ≡ e) ⊎ In e l

-- The default of the Tab key.
unfoldable pub tab_default : Option ℕ → OverlayKey → Overlay → Overlay
unfolding tab_forward tab_back
tab_default outside escape_key o = o
tab_default outside other o = o
tab_default outside (tab_key shift) o = elim o.focused [
  | none ↦ o
  | some e ↦ record o {
    focused = if shift then tab_back outside e o.focusable else tab_forward outside e o.focusable;
  }
]

-- All elements that the selector finds take the focus.
abbrev pub AllTake : Overlay → Type 0
AllTake o = (e : ℕ) → In e o.focusable → o.takes_focus e ≡ true

-- The focus is on an element of the panel.
abbrev pub Inside : Overlay → Type 0
Inside o = (e : ℕ) × (o.focused ≡ some e) × In e o.focusable

-- The listener is there, and the focus is on an element of the panel.
abbrev pub Trapped : Overlay → Type 0
Trapped o = (o.bound ≡ true) × Inside o

-- Tab keys with and without shift, one after another.
unfoldable pub tabs_pressed : Option ℕ → List Bool → Overlay → Overlay
unfolding press_in tab_default
tabs_pressed outside [] o = o
tabs_pressed outside (shift ∷ l) o =
    tabs_pressed outside l (press_in (tab_default outside) (tab_key shift) o)

focus_on-focused :
    (e : ℕ) (o : Overlay) → (f : Option ℕ) × (focus_on e o ≡ record o { focused = f })
unfolding focus_on
focus_on-focused e o = elim (Bool-cases (o.takes_focus e)) [
  | inl p ↦ (some e, ground (arith, p))
  | inr p ↦ (o.focused, ground (arith, p))
]

focus_first-focused :
    (l : List ℕ) (o : Overlay) → (f : Option ℕ) × (focus_first l o ≡ record o { focused = f })
unfolding focus_first
focus_first-focused (e ∷ l) o = focus_on-focused e o
focus_first-focused [] o = focus_on-focused o.panel o

closed_again :
    (o : Overlay) (e : ℕ) (f : Option ℕ)
    → o.previous ≡ some e
    → close_overlay (record o { focused = f })
      ≡ record o { hidden = true; marked_open = false; focused = some e; closes = suc o.closes }
unfolding close_overlay focus_previous
closed_again o e f h = ground (arith, h)

-- Where Escape closes, it does so after `open`: the default is prevented, the overlay is hidden,
-- `onClose` is called once, and the focus is back on the element that had it before; nothing else
-- changes but that this element is kept as the previous one.
pub key_down-open_overlay :
    (o : Overlay) (e : ℕ)
    → o.escape ≡ true
    → o.focused ≡ some e
    → key_down escape_key (open_overlay o) ≡ (
      record o {
        hidden = true;
        marked_open = false;
        focused = some e;
        previous = o.focused;
        closes = suc o.closes;
      },
      true,
    )
unfolding key_down open_overlay
key_down-open_overlay o e h f =
    let start = record o { previous = o.focused; hidden = false; marked_open = true } in
    let (x, g) = focus_first-focused o.focusable start in
    ap (λ (u : Overlay). if u.escape then (close_overlay u, true) else (u, false)) g
    ∙ (escapes (record start { focused = x }) h ∙ ap (λ u. (u, true)) (closed_again start e x f))
  where
    escapes :
        (u : Overlay)
        → u.escape ≡ true
        → (◌≡◌ {A = Overlay × Bool}
            (if u.escape then (close_overlay u, true) else (u, false))
            (close_overlay u, true))
    escapes u q = ground (arith, q)
