-- ===== src/Site/Blocks.antt =====
-- `langOf` and `enhanceCode` of site/manual.js: the code blocks of a page and their copy buttons.
use Prim.Native.Char.{code}
use Prim.Native.String.{String}
use text.Mathlib.Text.{◌==◌ as str_eq}
use text.Mathlib.TextEquality.{eq_iff}
use wiregrid.Base.{
  ◌≢◌, ne_of_test, ◌&&◌, ap, Bool, true, false, ◌||◌, ◌==◌, ◌≡◌, refl, Option, none, some, List, [],
  ◌∷◌, arith, if◌then◌else◌, All, Bool-cases, inl, inr,
}
use wiregrid.Base.Units.{Units, between}
use wiregrid.Site.Keywords.{words}
use wiregrid.Site.Highlight.{highlight}
use wiregrid.Site.Highlight.Html.{read, in_text, shown, flat_spans}
use wiregrid.Site.Highlight.Shown.{highlight-shown}

-- What follows a prefix.
unfoldable pub strip : String → String → Option String
strip String.[] s = some s
strip (String.◌∷◌ c token) String.[] = none
strip (String.◌∷◌ c token) (String.◌∷◌ d s) = if code c == code d then strip token s else none

-- `[a-z0-9]+`, as long as it goes.
unfoldable pub lang_run : String → String
lang_run String.[] = ""
lang_run (String.◌∷◌ c s) =
    if between b'a' b'z' (code c) || between b'0' b'9' (code c)
    then String.◌∷◌ c (lang_run s)
    else ""

-- The language that follows at this place, if there is one.
unfoldable pub lang_here : String → Option String
unfolding strip lang_run
lang_here s = elim (strip "language-" s) [
  | none ↦ none
  | some rest ↦ if str_eq (lang_run rest) "" then none else some (lang_run rest)
]

-- The first match of `/language-([a-z0-9]+)/`.
unfoldable pub lang_of : String → String
unfolding lang_here
lang_of String.[] = ""
lang_of (String.◌∷◌ c s) =
    let rest = lang_of s in elim (lang_here (String.◌∷◌ c s)) [ none ↦ rest | some lang ↦ lang ]

-- `textContent.replace(/\n$/, "")`.
unfoldable pub without_newline : Units → Units
without_newline [] = []
without_newline (c ∷ []) = if c == 10 then [] else c ∷ []
without_newline (c ∷ d ∷ s) = c ∷ without_newline (d ∷ s)

-- A code element: its class, its text, and whether its block was wrapped before.
pub record Code : Type 0 where
  pub class_name : String
  pub content : Units
  pub wrapped : Bool

-- What is done to it: the HTML that is written, if any, and the text of the copy button.
pub data Enhanced : Type 0 where
  skipped : Enhanced
  wrapped : Option Units → Units → Enhanced

-- `none` is an exception of `highlight`.
unfoldable pub enhance : Code → Option Enhanced
unfolding lang_of without_newline highlight
enhance c =
    if c.wrapped
    then some skipped
    else let raw = without_newline c.content in
      if str_eq (lang_of c.class_name) ""
      then some (wrapped none raw)
      else elim (highlight raw (lang_of c.class_name)) [
        | none ↦ none
        | some html ↦ some (wrapped (some html) raw)
      ]

unfoldable pub enhance_all : List Code → Option (List Enhanced)
unfolding enhance
enhance_all [] = some []
enhance_all (c ∷ l) = elim (enhance c) [
  | none ↦ none
  | some e ↦ elim (enhance_all l) [ none ↦ none | some done ↦ some (e ∷ done) ]
]

-- What the button copies, and what the HTML shows where it was written, are the text of the element
-- without the last newline; HTML is written exactly if the element has a language.
abbrev pub Faithful : Code → Enhanced → Type 0
Faithful c skipped = c.wrapped ≡ true
Faithful c (wrapped none copied) =
    (c.wrapped ≡ false) × (copied ≡ without_newline c.content) × (lang_of c.class_name ≡ "")
Faithful c (wrapped (some html) copied) =
    (c.wrapped ≡ false)
    × (copied ≡ without_newline c.content)
    × (lang_of c.class_name ≢ "")
    × (shown (read in_text html) ≡ copied)
    × (flat_spans false (read in_text html) ≡ true)

abbrev pub AllFaithful : List Code → List Enhanced → Type 0
AllFaithful [] [] = Unit {0}
AllFaithful (c ∷ l) (e ∷ done) = Faithful c e × AllFaithful l done
AllFaithful _ _ = ⊥

-- The language of a code element has no inherited name.
abbrev pub Safe : Code → Type 0
Safe c = (kw : List Units) × (words (lang_of c.class_name) ≡ some kw)

enhance-Faithful : (c : Code) → Safe c → (e : Enhanced) × (enhance c ≡ some e) × Faithful c e
unfolding enhance
enhance-Faithful c (kw, safe) = elim (Bool-cases c.wrapped) [
  | inl w ↦ (skipped, ground (arith, w), w)
  | inr w ↦
      let raw = without_newline c.content in
      elim (Bool-cases (str_eq (lang_of c.class_name) "")) [
        | inl e ↦ (wrapped none raw, ground (arith, w, e), (w, refl, (eq_iff _ _).0 e))
        | inr e ↦
            let (html, f, seen, flat) = highlight-shown raw (lang_of c.class_name) safe in
            (
              wrapped (some html) raw,
              ground (arith, w, e, f),
              (w, refl, ne_of_test _ _ e, seen, flat),
            )
      ]
]

-- All characters are lower case letters or digits.
abbrev pub is_run : String → Bool
is_run String.[] = true
is_run (String.◌∷◌ c s) = (between b'a' b'z' (code c) || between b'0' b'9' (code c)) && is_run s

abbrev pub language_class : String → String
language_class name = String.◌∷◌ "l" (
    String.◌∷◌ "a" (
      String.◌∷◌ "n" (
        String.◌∷◌ "g" (
          String.◌∷◌ "u"
            (String.◌∷◌ "a" (String.◌∷◌ "g" (String.◌∷◌ "e" (String.◌∷◌ "-" name))))))))

lang_run_whole : (name : String) → is_run name ≡ true → lang_run name ≡ name
unfolding lang_run
lang_run_whole String.[] h = refl
lang_run_whole (String.◌∷◌ c s) h =
    let rest : is_run s ≡ true = ground (arith, h) in
    let here : (between b'a' b'z' (code c) || between b'0' b'9' (code c)) ≡ true =
      ground (arith, h) in
    rw here (ap (String.◌∷◌ c) (lang_run_whole s rest))

lang_of_class :
    (name : String) → is_run name ≡ true → name ≢ "" → lang_of (language_class name) ≡ name
unfolding lang_of lang_here strip
lang_of_class name h n = elim (Bool-cases (str_eq name "")) [
  | inl e ↦ absurd (n ((eq_iff _ _).0 e))
  | inr e ↦ rw (lang_of, lang_here, lang_run_whole name h, e) refl
]

all_enhanced :
    (l : List Code)
    → All Safe l
    → (done : List Enhanced) × (enhance_all l ≡ some done) × AllFaithful l done
unfolding enhance_all
all_enhanced [] h = ([], refl, tt)
all_enhanced (c ∷ l) h =
    let (e, f, good) = enhance-Faithful c h.0 in
    let (done, g, rest) = all_enhanced l h.1 in
    (e ∷ done, rw (enhance_all, f, g) refl, (good, rest))

-- If the languages of the code elements of a page have no inherited names, `enhanceCode` goes through
-- all of them: the button of an element that was not wrapped before copies its text without the last
-- newline, and exactly where the element has a language, HTML is written to it, which shows that text
-- in flat spans of the five classes. The class `language-` with lower case letters and digits names
-- the language.
pub enhance_all-Faithful :
    (l : List Code)
    → All Safe l
    → (done : List Enhanced) × (enhance_all l ≡ some done)
      × AllFaithful l done
      × ((name : String) → is_run name ≡ true → name ≢ "" → lang_of (language_class name) ≡ name)
enhance_all-Faithful l h = let (done, e, good) = all_enhanced l h in (done, e, good, lang_of_class)
