-- ===== src/Composer/Types.antt =====
-- The state that `bindComposer` keeps, in its closure and on the form (priv/ui/js/composer.js).
use wiregrid.Base.{ℕ, String, Bool, Option, List}

-- Where a call of `submit` waits: for `onSubmit`, or for `onError`.
pub data Stage : Type 0 where
  sending handling : Stage

-- A call of `submit` that has not returned: `value` and `submittedRevision`.
pub record Submission : Type 0 where
  pub value : String
  pub revision : ℕ
  pub stage : Stage

-- What a call of `submit` returns.
pub data Answer : Type 0 where
  refused ignored accepted declined failed : Answer

-- What the composer calls: `onSubmit`, `onError` and the event on the form.
pub data Effect : Type 0 where
  submit_called : String → Effect
  error_called error_dispatched : Effect

-- `bytes` is the length in UTF-8, `blank` tells that nothing is left of a text by `trim`, `height` is
-- `scrollHeight` of the text area with the text, and `handles` tells that `onError` is given.
pub record Options : Type 0 where
  pub bytes : String → ℕ
  pub blank : String → Bool
  pub height : String → ℕ
  pub max_bytes : Option ℕ
  pub max_height : Option ℕ
  pub enter_to_send : Bool
  pub handles : Bool

pub record Key : Type 0 where
  pub enter : Bool
  pub shift : Bool
  pub alt : Bool
  pub ctrl : Bool
  pub meta : Bool
  pub composing : Bool

-- `shown` is the number of the byte count element and `answers` what the calls of `submit` returned.
pub record Composer : Type 0 where
  pub value : String
  pub revision : ℕ
  pub destroyed : Bool
  pub submitting : Bool
  pub over_limit : Bool
  pub shown : ℕ
  pub height : ℕ
  pub waiting : List Submission
  pub answers : List Answer
  pub effects : List Effect

-- How such a call ends: with `false`, with something else, or with an error.
pub data Outcome : Type 0 where
  gave_false gave_other threw : Outcome

-- What happens to a composer. `assigned` is another script that sets the text, and `settled i` the end
-- of the call that the `i`-th waiting submission waits for.
pub data Event : Type 0 where
  called : Event
  typed : String → Event
  assigned : String → Event
  pressed : Key → Event
  form_submitted : Event
  settled : ℕ → Outcome → Event
  torn_down : Event
