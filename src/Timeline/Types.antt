-- ===== src/Timeline/Types.antt =====
-- The state that `createTimeline` keeps (priv/ui/js/timeline.js), with the part of the document that
-- it owns. `A` is what a row shows besides its two data attributes.
use wiregrid.Base.{ℕ, String, Bool, Option, List}
use wiregrid.Base.JsMap.{JsMap}

-- A message row: the identity of the element, `dataset.messageId` and `dataset.wgNonce`.
pub record Node (A : Type 0) : Type 0 where
  pub ref : ℕ
  pub message_id : String
  pub nonce : Option String
  pub content : A

-- What stands in the container, in document order: the rows, and whatever else callers put there.
pub data Child (A : Type 0) : Type 0 where
  row : Node A → Child A
  other : ℕ → Child A

-- A message as it is given: `id` and `nonce` are null or a text.
pub record Message (A : Type 0) : Type 0 where
  pub id : Option String
  pub nonce : Option String
  pub content : A

-- What `Number(options.maxMessages)` is: zero or NaN, a positive number by its floor, a negative
-- number, or infinity.
pub data Amount : Type 0 where
  falsy : Amount
  positive : ℕ → Amount
  negative infinite : Amount

-- What the browser lays out, the height of the content and of the container, and of which messages
-- `renderMessage` makes a row; of others it throws.
pub record Layout (A : Type 0) : Type 0 where
  pub scroll_height : List (Child A) → ℕ
  pub client_height : ℕ
  pub renders : Message A → Bool

-- A call that returns, or throws, with the timeline after it.
pub data Attempt (A : Type 0) : Type 0 where
  returned thrown : A → Attempt A

-- `next_ref` is the identity of the next element that is made.
pub record Timeline (A : Type 0) : Type 0 where
  pub limit : ℕ
  pub auto_scroll : Bool
  pub children : List (Child A)
  pub scroll_top : ℕ
  pub role : Option String
  pub aria_live : Option String
  pub previous_role : Option String
  pub previous_live : Option String
  pub messages : JsMap String (Node A)
  pub nonces : JsMap String String
  pub destroyed : Bool
  pub next_ref : ℕ
