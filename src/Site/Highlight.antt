-- ===== src/Site/Highlight.antt =====
-- `highlight` of site/manual.js.
pub mod Html
pub mod Cuts
pub mod Shown
use text.Mathlib.Text.{◌==◌ as str_eq}
use wiregrid.Base.{
  ℕ, zero, suc, ◌+◌, String, Bool, true, false, ◌&&◌, ◌||◌, ◌==◌, Option, none, some, List, [], ◌∷◌,
  ◌++◌, map, if◌then◌else◌, length,
}
use wiregrid.Base.Units.{Units, codes, starts, between, Cut, cons}
use wiregrid.Site.Keywords.{words, is_keyword}
use wiregrid.Site.Scan.{
  is_letter, is_digit, is_number_unit, is_atom_unit, is_word_unit, until_newline, through_close,
  through_quote, take_while,
}

-- `s.replace(/c/g, by)`.
unfoldable pub replace_all : ℕ → Units → Units → Units
replace_all c by [] = []
replace_all c by (d ∷ s) = (if d == c then by else d ∷ []) ++ replace_all c by s

unfoldable pub esc : Units → Units
unfolding replace_all
esc s =
    replace_all b'>' (codes "&gt;")
      (replace_all b'<' (codes "&lt;") (replace_all b'&' (codes "&amp;") s))

-- How a token is painted: as it is, or in a span of a class.
pub data Paint : Type 0 where
  plain comment quoted atom number keyword : Paint

unfoldable pub span : String → Units → Units
unfolding esc
span cls s = codes "<span class=\"" ++ (codes cls ++ (codes "\">" ++ (esc s ++ codes "</span>")))

unfoldable pub print : Paint → Units → Units
unfolding span esc
print plain s = esc s
print comment s = span "tok-cmt" s
print quoted s = span "tok-str" s
print atom s = span "tok-atom" s
print number s = span "tok-num" s
print keyword s = span "tok-kw" s

-- What one round of the loop takes: its paint, its text, and what is left.
pub record Token : Type 0 where
  pub paint : Paint
  pub cut : Cut

abbrev pub token : Paint → ℕ → Cut → Token
token p c k = record { paint = p; cut = cons c k }

-- `word.toLowerCase()`, for the units of a word.
unfoldable pub lower : ℕ → ℕ
lower c = if between b'A' b'Z' c then c + 32 else c

unfoldable pub starts_upper : Units → Bool
starts_upper [] = false
starts_upper (c ∷ s) = between b'A' b'Z' c

unfoldable pub word_paint : String → List Units → Units → Paint
unfolding is_keyword lower starts_upper
word_paint lang kw word =
    if is_keyword kw word
      || (is_keyword kw (map lower word) && (str_eq lang "sql" || str_eq lang "css"))
    then keyword
    else if str_eq lang "erlang" && starts_upper word
    then atom
    else plain

-- `src[i - 1]` is not a letter, or there is none.
unfoldable pub after_other : Option ℕ → Bool
after_other none = true
after_other (some c) = if is_letter c then false else true

unfoldable pub next_is_letter : Units → Bool
next_is_letter [] = false
next_is_letter (c ∷ s) = is_letter c

-- The string token that opens with `c`.
unfoldable pub string_cut : Bool → ℕ → Units → Cut
unfolding through_quote
string_cut true c (d ∷ e ∷ s) = cons d (cons e (through_quote (codes "\"\"\"") true 0 s))
string_cut triple c s = through_quote (c ∷ []) triple 0 s

-- `src.indexOf("*/", i + 2)` starts behind the opening.
unfoldable pub block_comment : Units → Cut
unfolding through_close
block_comment [] = record { taken = []; left = [] }
block_comment (d ∷ s) = cons d (through_close s)

-- Which branch of the loop's body takes the unit.
pub data Kind : Type 0 where
  to_line_end to_comment_end to_quote atom_name digits name single : Kind

abbrev pub opens_triple : String → ℕ → Units → Bool
opens_triple lang c s = str_eq lang "elixir" && starts (c ∷ s) (codes "\"\"\"")

-- The conditions in their order, at the unit `c`, with `before` the unit before it and `s` those
-- after it.
unfoldable pub kind_at : String → Option ℕ → ℕ → Units → Kind
unfolding starts after_other next_is_letter
kind_at lang before c s =
    if str_eq lang "elixir" && c == b'#'
    then to_line_end
    else if (str_eq lang "erlang" || str_eq lang "lfe") && c == b'%'
    then to_line_end
    else if str_eq lang "lfe" && c == b';'
    then to_line_end
    else if (str_eq lang "js" || (str_eq lang "c" || (str_eq lang "gleam" || str_eq lang "css")))
        && starts (c ∷ s) (codes "/*")
    then to_comment_end
    else if (str_eq lang "js" || (str_eq lang "c" || str_eq lang "gleam"))
        && starts (c ∷ s) (codes "//")
    then to_line_end
    else if str_eq lang "sql" && starts (c ∷ s) (codes "--")
    then to_line_end
    else if str_eq lang "shell" && c == b'#'
    then to_line_end
    else if c == 34 || (c == 39 || opens_triple lang c s)
    then to_quote
    else if str_eq lang "elixir" && (c == b':' && next_is_letter s)
    then atom_name
    else if is_digit c && after_other before
    then digits
    else if is_letter c
    then name
    else single

-- The bodies of the branches.
unfoldable pub token_of : String → List Units → ℕ → Units → Kind → Token
unfolding until_newline block_comment string_cut take_while word_paint
token_of lang kw c s to_line_end = token comment c (until_newline s)
token_of lang kw c s to_comment_end = token comment c (block_comment s)
token_of lang kw c s to_quote = token quoted c (string_cut (opens_triple lang c s) c s)
token_of lang kw c s atom_name = token atom c (take_while is_atom_unit s)
token_of lang kw c s digits = token number c (take_while is_number_unit s)
token_of lang kw c s name =
    let word = take_while is_word_unit s in token (word_paint lang kw (c ∷ word.taken)) c word
token_of lang kw c s single = token plain c (record { taken = []; left = s })

-- One round of the loop.
unfoldable pub token_at : String → List Units → Option ℕ → ℕ → Units → Token
unfolding kind_at token_of
token_at lang kw before c s = token_of lang kw c s (kind_at lang before c s)

unfoldable pub last_of : Option ℕ → Units → Option ℕ
last_of before [] = before
last_of before (c ∷ s) = last_of (some c) s

-- The loop. Each round takes a unit at least, so as many rounds as there are units are enough; `none`
-- is a loop cut short.
unfoldable pub paint_all : ℕ → String → List Units → Option ℕ → Units → Units → Option Units
unfolding token_at print last_of
paint_all fuel lang kw before [] out = some out
paint_all zero lang kw before (c ∷ s) out = none
paint_all (suc fuel) lang kw before (c ∷ s) out =
    let t = token_at lang kw before c s in
    paint_all fuel lang kw (last_of before t.cut.taken) t.cut.left
      (out ++ print t.paint t.cut.taken)

-- The keywords are looked up first; `none` is also the TypeError of `words`.
unfoldable pub highlight : Units → String → Option Units
unfolding words paint_all
highlight src lang = elim (words lang) [
  | none ↦ none
  | some kw ↦ paint_all (length src) lang kw none src []
]
