-- ===== src/Chat/Elements.antt =====
-- The elements that priv/ui/js/chat.js builds, as a tree.
use wiregrid.Base.{String, Bool, false, ◌||◌, ◌⊎◌, Option, none, List, [], ◌∷◌}
use wiregrid.Base.Units.{Units, codes, same_units}

-- An element without its children. `shown` is the text that it is made with; of the data attributes
-- there are those that the clicks ask for.
pub record Head : Type 0 where
  pub tag : String
  pub classes : List String
  pub shown : Units
  pub message_id : Option Units
  pub nonce : Option Units
  pub jump : Option Units
  pub reaction : Option Units
  pub action : Option Units
  pub attributes : List (String × Units)

mutual
  pub data Tree : Type 0 where
    element : Head → Forest → Tree

  pub data Forest : Type 0 where
    nil : Forest
    cons : Tree → Forest → Forest

-- `text(tag, value, className)` of priv/ui/js/core.js, the class names as a list.
abbrev pub text : String → Units → List String → Head
text tag value classes = record {
  tag = tag;
  classes = classes;
  shown = value;
  message_id = none;
  nonce = none;
  jump = none;
  reaction = none;
  action = none;
  attributes = [];
}

unfoldable pub join : Forest → Forest → Forest
join nil g = g
join (cons t f) g = cons t (join f g)

-- One element for each entry, in order.
unfoldable pub each {ℓ} : {X : Type ℓ} → (X → Head) → List X → Forest
each f [] = nil
each f (x ∷ l) = cons (element (f x) nil) (each f l)

unfoldable pub has_class : String → List String → Bool
has_class name [] = false
has_class name (c ∷ l) = same_units (codes name) (codes c) || has_class name l

-- In every element of a tree, with its ancestors up to the document, the nearest first.
unfoldable mutual
  pub Everywhere : (List Head → Type 0) → List Head → Tree → Type 0
  Everywhere C up (element h f) = C (h ∷ up) × EverywhereIn C (h ∷ up) f

  pub EverywhereIn : (List Head → Type 0) → List Head → Forest → Type 0
  EverywhereIn C up nil = Unit {0}
  EverywhereIn C up (cons t f) = Everywhere C up t × EverywhereIn C up f

-- In some element of a tree.
unfoldable mutual
  pub Somewhere : (List Head → Type 0) → List Head → Tree → Type 0
  Somewhere C up (element h f) = C (h ∷ up) ⊎ SomewhereIn C (h ∷ up) f

  pub SomewhereIn : (List Head → Type 0) → List Head → Forest → Type 0
  SomewhereIn C up nil = ⊥
  SomewhereIn C up (cons t f) = Somewhere C up t ⊎ SomewhereIn C up f
