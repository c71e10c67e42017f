-- ===== src/Composer/Tests.antt =====
-- A run of a composer, and the theorem at it (priv/ui/js/composer.js).
use wiregrid.Base.{true, false, none, some, [], ◌∷◌}
use wiregrid.Composer.Types.{
  Submission, sending, Options, called, typed, settled, gave_other, threw, torn_down,
}
use wiregrid.Composer.Ops.{resume, run, bind, destroy}
use wiregrid.Composer.Ended.{Ended, submitted, run-destroy}
use wiregrid.Composer.Drafts.{Kept, resume-Kept}
use wiregrid.Composer.Sending.{HasBooks, run-bind-HasBooks}

abbrev chat_input : Options
chat_input = record {
  bytes = λ s. 5;
  blank = λ s. false;
  height = λ s. 20;
  max_bytes = some 10;
  max_height = none;
  enter_to_send = true;
  handles = false;
}

run-bind-HasBooks_example : HasBooks chat_input (
    run chat_input
      (called
        ∷ typed "again"
        ∷ called
        ∷ settled 0 threw
        ∷ called
        ∷ settled 0 gave_other
        ∷ torn_down
        ∷ [])
      (bind chat_input "hello"))
run-bind-HasBooks_example = run-bind-HasBooks chat_input "hello" (
    called
    ∷ typed "again"
    ∷ called
    ∷ settled 0 threw
    ∷ called
    ∷ settled 0 gave_other
    ∷ torn_down
    ∷ [])

abbrev first : Submission
first = record { value = "hello"; revision = 0; stage = sending }

resume-Kept_example :
    Kept first gave_other
      (bind chat_input "hello")
      (resume chat_input first gave_other (bind chat_input "hello")).value
resume-Kept_example = resume-Kept chat_input first gave_other (bind chat_input "hello")

run-destroy_example :
    Ended (submitted (run chat_input (called ∷ []) (bind chat_input "hello")).effects) (
      run chat_input
        (settled 0 threw ∷ called ∷ [])
        (destroy (run chat_input (called ∷ []) (bind chat_input "hello"))))
run-destroy_example = run-destroy chat_input "hello" (called ∷ []) (settled 0 threw ∷ called ∷ [])
