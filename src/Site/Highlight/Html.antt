-- ===== src/Site/Highlight/Html.antt =====
-- A reader of the HTML that the highlighter of site/manual.js writes: what it shows, and its tags.
use wiregrid.Base.{
  ℕ, Bool, true, false, not, ◌&&◌, ◌||◌, ◌==◌, List, [], ◌∷◌, ◌++◌, map, if◌then◌else◌,
}
use wiregrid.Base.Units.{Units, codes, same_units}
use wiregrid.Site.Keywords.{any_same}

pub data Event : Type 0 where
  unit : ℕ → Event
  tag : Units → Event

-- In the text, in a tag, or in an entity, with what was read of it.
pub data Mode : Type 0 where
  in_text : Mode
  in_tag in_entity : Units → Mode

entity : Units → List Event
entity name =
    if same_units name (codes "amp")
    then unit b'&' ∷ []
    else if same_units name (codes "lt")
    then unit b'<' ∷ []
    else if same_units name (codes "gt")
    then unit b'>' ∷ []
    else []

unfoldable pub emitted : Mode → ℕ → List Event
unfolding entity same_units
emitted in_text c = if c == b'<' || c == b'&' then [] else unit c ∷ []
emitted (in_tag name) c = if c == b'>' then tag name ∷ [] else []
emitted (in_entity name) c = if c == b';' then entity name else []

unfoldable pub next_mode : Mode → ℕ → Mode
next_mode in_text c = if c == b'<' then in_tag [] else if c == b'&' then in_entity [] else in_text
next_mode (in_tag name) c = if c == b'>' then in_text else in_tag (name ++ c ∷ [])
next_mode (in_entity name) c = if c == b';' then in_text else in_entity (name ++ c ∷ [])

unfoldable pub read : Mode → Units → List Event
unfolding emitted next_mode
read mode [] = []
read mode (c ∷ s) = emitted mode c ++ read (next_mode mode c) s

-- The text content.
unfoldable pub shown : List Event → Units
shown [] = []
shown (unit c ∷ l) = c ∷ shown l
shown (tag name ∷ l) = shown l

abbrev pub opening_tags : List Units
opening_tags = map codes (
    "span class=\"tok-cmt\"" ∷ "span class=\"tok-str\"" ∷ "span class=\"tok-atom\""
    ∷ "span class=\"tok-num\"" ∷ "span class=\"tok-kw\"" ∷ [])

-- Each opening tag is that of a span of one of the five classes, and is closed before the next.
unfoldable pub flat_spans : Bool → List Event → Bool
unfolding any_same
flat_spans open_now [] = not open_now
flat_spans open_now (unit c ∷ l) = flat_spans open_now l
flat_spans false (tag name ∷ l) = any_same name opening_tags && flat_spans true l
flat_spans true (tag name ∷ l) = same_units name (codes "/span") && flat_spans false l
