-- ===== src/Site/Keywords.antt =====
-- The table of keywords of site/manual.js, and how it is asked.
use text.Mathlib.Text.{◌==◌ as str_eq}
use wiregrid.Base.{
  ℕ, String, Bool, false, ◌||◌, ◌==◌, Option, none, some, List, [], ◌∷◌, ◌++◌, map, if◌then◌else◌,
}
use wiregrid.Base.Units.{Units, codes, same_units, between}

-- `KEYWORDS[lang]`, where it is a key of its own.
unfoldable pub own_keywords : String → Option String
own_keywords lang =
    if str_eq lang "elixir"
    then some
        "def defp defmodule defmacro defmacrop do end fn when case cond if unless else true false nil with use alias import require raise receive after quote unquote and or in not"
    else if str_eq lang "erlang"
    then some
        "case of end if when receive after begin fun try catch throw andalso orelse band bor bxor bnot bsl bsr div rem true false"
    else if str_eq lang "lfe"
    then some
        "defun defmacro case let let* lambda match-lambda when cond if progn begin receive after try catch tuple list binary"
    else if str_eq lang "gleam"
    then some "pub fn type case let use import if else true false nil todo panic opaque"
    else if str_eq lang "c"
    then some
        "int char void const static struct enum typedef return if else for while do switch case break continue sizeof unsigned long short include define"
    else if str_eq lang "shell"
    then some "if then else fi for in do done case esac while set export echo printf"
    else if str_eq lang "css"
    then some "important"
    else if str_eq lang "js"
    then some
        "const let var function return if else for while do switch case break continue new class import export from true false null undefined async await"
    else if str_eq lang "json"
    then some "true false null"
    else if str_eq lang "sql"
    then some
        "select from where and or insert into values update set delete create table if not exists primary key with order by limit"
    else none

-- The properties that every object inherits from `Object.prototype`.
abbrev pub inherited : List String
inherited =
    "constructor" ∷ "__defineGetter__" ∷ "__defineSetter__" ∷ "hasOwnProperty" ∷ "__lookupGetter__"
    ∷ "__lookupSetter__" ∷ "isPrototypeOf" ∷ "propertyIsEnumerable" ∷ "toString" ∷ "valueOf"
    ∷ "__proto__" ∷ "toLocaleString" ∷ []

unfoldable pub is_inherited : List String → String → Bool
is_inherited [] name = false
is_inherited (n ∷ l) name = str_eq n name || is_inherited l name

-- `\s` of a regular expression.
unfoldable pub is_space : ℕ → Bool
is_space c =
    between 9 13 c
    || (c == 32
        || (c == 160
            || (c == 0x1680
                || (between 0x2000 0x200a c
                    || (c == 0x2028
                        || (c == 0x2029
                            || (c == 0x202f || (c == 0x205f || (c == 0x3000 || c == 0xfeff)))))))))

-- `raw.split(/\s+/)` without the empty words; `word` is the word that is being read.
unfoldable pub split_words : Units → Units → List Units
unfolding is_space
split_words word [] = word ∷ []
split_words word (c ∷ s) =
    let rest = split_words [] s in
    let longer = split_words (word ++ c ∷ []) s in if is_space c then word ∷ rest else longer

unfoldable pub nonempty : List Units → List Units
nonempty [] = []
nonempty ([] ∷ l) = nonempty l
nonempty ((c ∷ w) ∷ l) = (c ∷ w) ∷ nonempty l

-- `words`. `none` is the TypeError for an inherited name, whose value has no `split`.
unfoldable pub words : String → Option (List Units)
unfolding own_keywords is_inherited split_words nonempty
words lang = elim (own_keywords lang) [
  | some raw ↦ some (nonempty (split_words [] (codes raw)))
  | none ↦ if is_inherited inherited lang then none else some []
]

unfoldable pub any_same : Units → List Units → Bool
unfolding same_units
any_same word [] = false
any_same word (w ∷ l) = same_units w word || any_same word l

-- `kw[word]` is truthy: a word of its own, or a name that is inherited.
unfoldable pub is_keyword : List Units → Units → Bool
unfolding any_same
is_keyword kw word = any_same word kw || any_same word (map codes inherited)
