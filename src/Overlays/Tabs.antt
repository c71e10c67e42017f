-- ===== src/Overlays/Tabs.antt =====
-- `bindTabs` of priv/ui/js/overlays.js. An element is a number, its identity.
use wiregrid.Base.{
  ℕ, zero, suc, ◌+◌, ◌-◌, ◌%◌, Bool, false, not, ◌==◌, Option, none, some, List, [], ◌∷◌,
  if◌then◌else◌, length, ℕ_discrete,
}
use wiregrid.Base.JsMap.{JsMap, set}

-- A tab: its element, and the element that its `aria-controls` names in the document, if there is
-- one.
pub record Tab : Type 0 where
  pub element : ℕ
  pub panel : Option ℕ

-- What the attributes of a tab are: `aria-selected` and whether `tabIndex` is 0 (else -1).
pub record Marks : Type 0 where
  pub selected : Bool
  pub in_order : Bool

-- `marks` by tab and `hidden` by panel; `focused` is `document.activeElement`.
pub record Tabs : Type 0 where
  pub tabs : List Tab
  pub marks : JsMap ℕ Marks
  pub hidden : JsMap ℕ Bool
  pub focused : Option ℕ
  pub bound : Bool

-- One round of `select`.
unfoldable pub mark_tab : ℕ → Tab → Tabs → Tabs
mark_tab chosen item t =
    let active = item.element == chosen in
    let marked = record t {
      marks = set ℕ_discrete item.element (record { selected = active; in_order = active }) t.marks;
    } in
    elim item.panel [
      | none ↦ marked
      | some p ↦ record marked { hidden = set ℕ_discrete p (not active) t.hidden }
    ]

unfoldable pub mark_all : List Tab → ℕ → Tabs → Tabs
unfolding mark_tab
mark_all [] chosen t = t
mark_all (item ∷ l) chosen t = mark_all l chosen (mark_tab chosen item t)

unfoldable pub select_tab : ℕ → Tabs → Tabs
unfolding mark_all
select_tab chosen t = mark_all t.tabs chosen t

-- A click within a tab, or elsewhere.
unfoldable pub click_tab : Option ℕ → Tabs → Tabs
unfolding select_tab
click_tab none t = t
click_tab (some tab) t = if t.bound then select_tab tab t else t

-- `tabs.indexOf(document.activeElement)`.
unfoldable pub index_from : ℕ → Option ℕ → List Tab → Option ℕ
index_from i focused [] = none
index_from i none (item ∷ l) = none
index_from i (some e) (item ∷ l) =
    let rest = index_from (suc i) (some e) l in if item.element == e then some i else rest

pub data TabKey : Type 0 where
  arrow_left arrow_right home to_end other_key : TabKey

-- The index that the key goes to, from `i` among `n` tabs.
unfoldable pub next_index : TabKey → ℕ → ℕ → Option ℕ
next_index home i n = some 0
next_index to_end i n = some (n - 1)
next_index arrow_right i n = some ((i + 1 + n) % n)
next_index arrow_left i n = some ((i + n - 1) % n)
next_index other_key i n = none

unfoldable pub tab_at : ℕ → List Tab → Option Tab
tab_at i [] = none
tab_at zero (item ∷ l) = some item
tab_at (suc i) (item ∷ l) = tab_at i l

-- `none` is the TypeError of an index out of range.
unfoldable pub go_to : Option Tab → Tabs → Option Tabs
unfolding select_tab
go_to none t = none
go_to (some item) t = some (select_tab item.element (record t { focused = some item.element }))

unfoldable pub press_key : TabKey → Tabs → Option Tabs
unfolding index_from next_index tab_at go_to
press_key k t = if not t.bound then some t else elim (index_from 0 t.focused t.tabs) [
  | none ↦ some t
  | some i ↦ elim (next_index k i (length t.tabs)) [
    | none ↦ some t
    | some next ↦ go_to (tab_at next t.tabs) t
  ]
]

unfoldable pub unbind_tabs : Tabs → Tabs
unbind_tabs t = record t { bound = false }
