-- ===== src/Global/Tests.antt =====
-- A run of the composer of priv/ui/wiregrid.js.
use wiregrid.Base.{ℕ, ◌≢◌, String, ◌≡◌, true, false, none, some, [], ◌∷◌}
use wiregrid.Composer.Types.{Options, called, typed, settled, gave_other, torn_down}
use wiregrid.Composer.Ops.{run, bind}
use wiregrid.Timeline.Types.{row}
use wiregrid.Chat.Jumping.{Page, jump_to_message}
use wiregrid.Global.Messages.{script_jump, script_jump-jump_to_message}
use wiregrid.Global.Composer.{play, mount_composer}
use wiregrid.Global.SameComposer.{as_module, seen_by_script, play-run}

abbrev unlimited : Options
unlimited = record {
  bytes = λ s. 5;
  blank = λ s. false;
  height = λ s. 20;
  max_bytes = some 0;
  max_height = none;
  enter_to_send = true;
  handles = true;
}

play-run_example :
    play unlimited
      (called ∷ called ∷ typed "more" ∷ settled 0 gave_other ∷ torn_down ∷ [])
      (mount_composer unlimited "hello")
    ≡ seen_by_script (
        run
          (as_module unlimited)
          (called ∷ called ∷ typed "more" ∷ settled 0 gave_other ∷ torn_down ∷ [])
          (bind (as_module unlimited) "hello"))
play-run_example =
    play-run unlimited "hello"
      (called ∷ called ∷ typed "more" ∷ settled 0 gave_other ∷ torn_down ∷ [])

abbrev page : Page String
page = record {
  children = row (record { ref = 1; message_id = "m1"; nonce = none; content = "hello" }) ∷ [];
  highlighted = [];
  focused = some 7;
  scrolled = [];
  timers = [];
}

script_jump-jump_to_message_example :
    ((script_jump "m1" page).0 ≡ (jump_to_message "m1" none page).0)
    × ((script_jump "m1" page).1 ≡ record ((jump_to_message "m1" none page).1) { focused = some 7 })
    × (jump_to_message "m1" (some 1400) page ≡ jump_to_message "m1" none page)
    × ((duration : ℕ)
        → duration ≢ 1400
        → (jump_to_message "m1" none page).0 ≡ true
        → (jump_to_message "m1" (some duration) page).1.timers ≢ (script_jump "m1" page).1.timers)
script_jump-jump_to_message_example = script_jump-jump_to_message "m1" page
