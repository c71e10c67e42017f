-- ===== src/Overlays/Overlay.antt =====
-- `createOverlay` of priv/ui/js/overlays.js. An element is a number, its identity.
use wiregrid.Base.{
  ℕ, suc, Bool, true, false, not, ◌&&◌, ◌==◌, Option, none, some, List, [], ◌∷◌, if◌then◌else◌,
}

-- `focusable` is what `focusable()` finds, in document order, and `takes_focus` tells to which elements
-- `focus()` moves the focus: the selector also finds hidden ones, where it does nothing. `closes`
-- counts the calls of `onClose`; `focused` is `document.activeElement` and `previous` what had the
-- focus before `open`.
pub record Overlay : Type 0 where
  pub panel : ℕ
  pub takes_focus : ℕ → Bool
  pub focusable : List ℕ
  pub escape : Bool
  pub bound : Bool
  pub hidden : Bool
  pub marked_open : Bool
  pub focused : Option ℕ
  pub previous : Option ℕ
  pub closes : ℕ

pub data OverlayKey : Type 0 where
  escape_key other : OverlayKey
  tab_key : Bool → OverlayKey

-- `element.focus()`.
unfoldable pub focus_on : ℕ → Overlay → Overlay
focus_on e o = if o.takes_focus e then record o { focused = some e } else o

unfoldable pub focus_first : List ℕ → Overlay → Overlay
unfolding focus_on
focus_first [] o = focus_on o.panel o
focus_first (e ∷ l) o = focus_on e o

unfoldable pub open_overlay : Overlay → Overlay
unfolding focus_first
open_overlay o =
    focus_first o.focusable (record o { previous = o.focused; hidden = false; marked_open = true })

-- What had the focus before takes it again.
unfoldable pub focus_previous : Option ℕ → Overlay → Overlay
focus_previous none o = o
focus_previous (some e) o = record o { focused = some e }

unfoldable pub close_overlay : Overlay → Overlay
unfolding focus_previous
close_overlay o =
    let shut = focus_previous o.previous (record o { hidden = true; marked_open = false }) in
    record shut { closes = suc shut.closes }

unfoldable pub last_element : ℕ → List ℕ → ℕ
last_element first [] = first
last_element first (e ∷ l) = last_element e l

unfoldable pub is_focused : Option ℕ → ℕ → Bool
is_focused none e = false
is_focused (some f) e = f == e

-- The Tab key: `true` where the default is prevented and the focus wraps.
unfoldable pub wrap_tab : Bool → List ℕ → Overlay → Overlay × Bool
unfolding last_element is_focused focus_on
wrap_tab shift [] o = (o, false)
wrap_tab shift (first ∷ l) o =
    let last = last_element first l in
    if shift && is_focused o.focused first
    then (focus_on last o, true)
    else if not shift && is_focused o.focused last
    then (focus_on first o, true)
    else (o, false)

-- `keydown`, with whether the default is prevented.
unfoldable pub key_down : OverlayKey → Overlay → Overlay × Bool
unfolding close_overlay wrap_tab
key_down escape_key o = if o.escape then (close_overlay o, true) else (o, false)
key_down (tab_key shift) o = wrap_tab shift o.focusable o
key_down other o = (o, false)

unfoldable pub unbind_overlay : Overlay → Overlay
unbind_overlay o = record o { bound = false }

-- A key that is pressed: what the browser does with it is the default, if it is not prevented.
unfoldable pub press_in : (OverlayKey → Overlay → Overlay) → OverlayKey → Overlay → Overlay
unfolding key_down
press_in default k o =
    if o.bound
    then (let (o', prevented) = key_down k o in if prevented then o' else default k o')
    else default k o
