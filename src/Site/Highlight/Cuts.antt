-- ===== src/Site/Highlight/Cuts.antt =====
-- A token and what is left of the source are the source (site/manual.js).
use wiregrid.Base.{
  ℕ, zero, suc, String, Bool, true, false, not, ◌&&◌, ◌==◌, ◌≡◌, refl, ap, Option, List, [], ◌∷◌,
  ◌++◌, if◌then◌else◌, if_either, length,
}
use wiregrid.Base.Units.{Units, codes, starts, Cut, cons, split_at}
use wiregrid.Site.Scan.{
  is_number_unit, is_atom_unit, is_word_unit, until_newline, through_close, through_quote,
  take_while,
}
use wiregrid.Site.Highlight.{
  Paint, Token, token, token_at, token_of, kind_at, opens_triple, Kind, to_line_end, to_comment_end,
  to_quote, atom_name, digits, name, single, block_comment, string_cut,
}

abbrev pub CutOf : Units → Cut → Type 0
CutOf s k = k.taken ++ k.left ≡ s

split_at-CutOf : (n : ℕ) (s : Units) → CutOf s (split_at n s)
unfolding split_at
split_at-CutOf zero s = refl
split_at-CutOf (suc n) [] = refl
split_at-CutOf (suc n) (c ∷ s) = ap (◌∷◌ c) (split_at-CutOf n s)

until_newline-CutOf : (s : Units) → CutOf s (until_newline s)
unfolding until_newline
until_newline-CutOf [] = refl
until_newline-CutOf (c ∷ s) =
    if_either (CutOf (c ∷ s)) (c == 10) (λ _. refl) (λ _. ap (◌∷◌ c) (until_newline-CutOf s))

take_while-CutOf : (test : ℕ → Bool) (s : Units) → CutOf s (take_while test s)
unfolding take_while
take_while-CutOf test [] = refl
take_while-CutOf test (c ∷ s) =
    if_either (CutOf (c ∷ s)) (test c) (λ _. ap (◌∷◌ c) (take_while-CutOf test s)) (λ _. refl)

through_close-CutOf : (s : Units) → CutOf s (through_close s)
unfolding through_close
through_close-CutOf [] = refl
through_close-CutOf (c ∷ s) =
    if_either (CutOf (c ∷ s)) (starts (c ∷ s) (codes "*/")) (λ _. split_at-CutOf 2 (c ∷ s))
      (λ _. ap (◌∷◌ c) (through_close-CutOf s))

through_quote-CutOf :
    (quote : Units) (triple : Bool) (skip : ℕ) (s : Units)
    → CutOf s (through_quote quote triple skip s)
unfolding through_quote
through_quote-CutOf quote triple zero [] = refl
through_quote-CutOf quote triple (suc skip) [] = refl
through_quote-CutOf quote triple (suc skip) (c ∷ s) =
    ap (◌∷◌ c) (through_quote-CutOf quote triple skip s)
through_quote-CutOf quote triple zero (c ∷ s) =
    if_either (CutOf (c ∷ s)) (not (c == 92 && not triple) && starts (c ∷ s) quote)
      (λ _. split_at-CutOf (length quote) (c ∷ s))
      (λ _.
        ap (◌∷◌ c) (through_quote-CutOf quote triple (if c == 92 && not triple then 1 else 0) s))

block_comment-CutOf : (s : Units) → CutOf s (block_comment s)
unfolding block_comment
block_comment-CutOf [] = refl
block_comment-CutOf (d ∷ s) = ap (◌∷◌ d) (through_close-CutOf s)

string_cut-CutOf : (triple : Bool) (c : ℕ) (s : Units) → CutOf s (string_cut triple c s)
unfolding string_cut
string_cut-CutOf true c [] = through_quote-CutOf (c ∷ []) true 0 []
string_cut-CutOf true c (d ∷ []) = through_quote-CutOf (c ∷ []) true 0 (d ∷ [])
string_cut-CutOf true c (d ∷ e ∷ s) =
    ap (λ t. d ∷ e ∷ t) (through_quote-CutOf (codes "\"\"\"") true 0 s)
string_cut-CutOf false c s = through_quote-CutOf (c ∷ []) false 0 s

-- A token that starts with its first unit.
pub record TokenOf (c : ℕ) (s : Units) (t : Token) : Type 0 where
  pub tail : Cut
  pub headed : t.cut ≡ cons c tail
  pub whole : CutOf s tail

token-TokenOf : (p : Paint) (c : ℕ) (s : Units) (k : Cut) → CutOf s k → TokenOf c s (token p c k)
token-TokenOf p c s k e = record { tail = k; headed = refl; whole = e }

token_of-TokenOf :
    (lang : String) (kw : List Units) (c : ℕ) (s : Units) (kind : Kind)
    → TokenOf c s (token_of lang kw c s kind)
unfolding token_of
token_of-TokenOf lang kw c s to_line_end = token-TokenOf _ c s _ (until_newline-CutOf s)
token_of-TokenOf lang kw c s to_comment_end = token-TokenOf _ c s _ (block_comment-CutOf s)
token_of-TokenOf lang kw c s to_quote =
    token-TokenOf _ c s _ (string_cut-CutOf (opens_triple lang c s) c s)
token_of-TokenOf lang kw c s atom_name = token-TokenOf _ c s _ (take_while-CutOf is_atom_unit s)
token_of-TokenOf lang kw c s digits = token-TokenOf _ c s _ (take_while-CutOf is_number_unit s)
token_of-TokenOf lang kw c s name = token-TokenOf _ c s _ (take_while-CutOf is_word_unit s)
token_of-TokenOf lang kw c s single = token-TokenOf _ c s _ refl

pub token_at-TokenOf :
    (lang : String) (kw : List Units) (before : Option ℕ) (c : ℕ) (s : Units)
    → TokenOf c s (token_at lang kw before c s)
unfolding token_at
token_at-TokenOf lang kw before c s = token_of-TokenOf lang kw c s (kind_at lang before c s)
