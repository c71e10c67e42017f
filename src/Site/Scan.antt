-- ===== src/Site/Scan.antt =====
-- The loops of `highlight` that look for the end of a token (site/manual.js). A position is given by
-- the units from it on.
use wiregrid.Base.{ℕ, zero, suc, Bool, not, ◌&&◌, ◌||◌, ◌==◌, [], ◌∷◌, if◌then◌else◌, length}
use wiregrid.Base.Units.{Units, codes, starts, between, Cut, cons, split_at}

-- `[A-Za-z_]`, `[0-9]` and the classes of the loops.
abbrev pub is_letter : ℕ → Bool
is_letter c = between b'A' b'Z' c || (between b'a' b'z' c || c == b'_')

abbrev pub is_digit : ℕ → Bool
is_digit c = between b'0' b'9' c

abbrev pub is_number_unit : ℕ → Bool
is_number_unit c = is_digit c || c == b'_'

abbrev pub is_atom_unit : ℕ → Bool
is_atom_unit c = is_letter c || (is_digit c || (c == b'!' || c == b'?'))

abbrev pub is_word_unit : ℕ → Bool
is_word_unit c = is_atom_unit c || c == b'-'

-- Up to the next newline, or to the end.
unfoldable pub until_newline : Units → Cut
until_newline [] = record { taken = []; left = [] }
until_newline (c ∷ s) =
    if c == 10 then record { taken = []; left = c ∷ s } else cons c (until_newline s)

-- Through the next `*/`, or to the end.
unfoldable pub through_close : Units → Cut
unfolding starts split_at
through_close [] = record { taken = []; left = [] }
through_close (c ∷ s) =
    let rest = through_close s in
    if starts (c ∷ s) (codes "*/") then split_at 2 (c ∷ s) else cons c rest

-- Through the closing quote, or to the end. `skip` units are passed unread: a backslash passes the
-- unit after it, unless the quote is triple.
unfoldable pub through_quote : Units → Bool → ℕ → Units → Cut
unfolding starts split_at
through_quote quote triple skip [] = record { taken = []; left = [] }
through_quote quote triple (suc skip) (c ∷ s) = cons c (through_quote quote triple skip s)
through_quote quote triple zero (c ∷ s) =
    let escapes = c == 92 && not triple in
    let rest = through_quote quote triple (if escapes then 1 else 0) s in
    if not escapes && starts (c ∷ s) quote then split_at (length quote) (c ∷ s) else cons c rest

-- `while (k < n && test(src[k])) k += 1`.
unfoldable pub take_while : (ℕ → Bool) → Units → Cut
take_while test [] = record { taken = []; left = [] }
take_while test (c ∷ s) =
    if test c then cons c (take_while test s) else record { taken = []; left = c ∷ s }
