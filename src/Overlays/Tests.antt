-- ===== src/Overlays/Tests.antt =====
-- A bar of three tabs and a dialog, and the theorems at them (priv/ui/js/overlays.js).
use wiregrid.Base.{ℕ, leb, ◌≡◌, refl, ◌⊎◌, true, false, none, some, [], ◌∷◌, arith}
use wiregrid.Overlays.Tabs.{Tabs, arrow_left, arrow_right, press_key, index_from, next_index}
use wiregrid.Overlays.Selecting.{Ignored, Chosen, press_key-Chosen, next_index_back}
use wiregrid.Overlays.Overlay.{Overlay, open_overlay, key_down, escape_key}
use wiregrid.Overlays.Trap.{key_down-open_overlay}

abbrev bar : Tabs
bar = record {
  tabs =
      record { element = 4; panel = some 9 }
      ∷ record { element = 5; panel = none }
      ∷ record { element = 6; panel = some 8 }
      ∷ [];
  marks = [];
  hidden = [];
  focused = some 4;
  bound = true;
}

press_key-Chosen_example :
    (t' : Tabs) × (press_key arrow_left bar ≡ some t')
    × ((Ignored arrow_left bar × (t' ≡ bar))
        ⊎ ((bar.bound ≡ true)
            × ((i : ℕ) × (j : ℕ) × (index_from 0 (some 4) bar.tabs ≡ some i)
                × (next_index arrow_left i 3 ≡ some j)
                × Chosen bar t' j)))
press_key-Chosen_example = press_key-Chosen arrow_left bar

next_index_back_example :
    (j : ℕ) × (k : ℕ) × (next_index arrow_right 2 3 ≡ some j)
    × (next_index arrow_left j 3 ≡ some 2)
    × (next_index arrow_left 2 3 ≡ some k)
    × (next_index arrow_right k 3 ≡ some 2)
next_index_back_example = next_index_back 2 3 (omega arith)

abbrev dialog : Overlay
dialog = record {
  panel = 1;
  takes_focus = λ e. leb 2 e;
  focusable = 2 ∷ 3 ∷ [];
  escape = true;
  bound = true;
  hidden = true;
  marked_open = false;
  focused = some 7;
  previous = none;
  closes = 0;
}

key_down-open_overlay_example :
    key_down escape_key (open_overlay dialog)
    ≡ (record dialog { hidden = true; focused = some 7; previous = some 7; closes = 1 }, true)
key_down-open_overlay_example = key_down-open_overlay dialog 7 refl refl
