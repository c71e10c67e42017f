-- ===== src/Core/Tests.antt =====
-- A store and a page, and the theorems at them (priv/ui/js/core.js).
use wiregrid.Base.{
  [], List, All, ℕ_discrete, Bool, ◌==◌, ◌&&◌, false, ne_of_test, none, refl, some, true, ℕ, ◌+◌,
  ◌∷◌, ◌≡◌,
}
use wiregrid.Base.JsMap.{get}
use wiregrid.Core.Store.{
  Cloning, Next, Store, StoreEvent, next_state, set_state, heard, given, computed, assign, merge,
  enter, leave, create_store, store_run, Told, store_run-Told,
}
use wiregrid.Core.Theme.{Page, set_theme, set_density, restore_theme, restore_theme-set_theme}

abbrev host : Cloning ℕ
host = record { structured = some (λ n. n); is_object = λ n. false; through_json = λ n. n }

-- Listener 2 throws when it is called with 7.
abbrev deaf : ℕ → ℕ → Bool
deaf id n = id == 2 && n == 7

abbrev history : List (StoreEvent ℕ)
history =
    enter 1
    ∷ assign (given 4)
    ∷ enter 2
    ∷ leave 1
    ∷ merge 3
    ∷ assign (computed (λ n. some (n + n)))
    ∷ []

abbrev after_history : Store ℕ
after_history = store_run deaf (λ a b. a + b) history (create_store host 0)

store_run-Told_example :
    Told deaf after_history
    × ((next : Next ℕ) (s : ℕ)
        → next_state next after_history.state ≡ some s
        → ((set_state deaf next after_history).state ≡ s)
          × All
              (λ id. get ℕ_discrete id (set_state deaf next after_history).calls ≡ some s)
              (heard deaf s after_history.listeners))
store_run-Told_example = store_run-Told host 0 deaf (λ a b. a + b) history

abbrev page : Page
page = record { present = true; usable = true; theme = none; density = none; stored = none }

-- The page that is loaded next.
abbrev next_page : Page
next_page = record page { density = some "cozy" }

restore_theme-set_theme_example :
    (restore_theme "dark" (record next_page {
      usable = true;
      stored = (set_density "compact" (set_theme "light" page)).stored;
    })
      ≡ (record next_page { usable = true; theme = some "light"; stored = some "light" }, "light"))
    × (restore_theme "dark" (record next_page { usable = false })
        ≡ (record next_page { usable = false; theme = some "dark" }, "dark"))
restore_theme-set_theme_example =
    restore_theme-set_theme "light" "compact" "dark" page next_page refl refl refl
      (ne_of_test "light" "" refl)
