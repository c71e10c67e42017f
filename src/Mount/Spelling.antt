-- ===== src/Mount/Spelling.antt =====
-- Topics that are spelled in more than one way (priv/ui/js/mount.js).
use wiregrid.Base.{
  Bool, true, false, ◌&&◌, ◌==◌, ◌≡◌, refl, sym, ap, ◌∙◌, List, [], ◌∷◌, ◌++◌, All, arith,
  Bool-cases, inl, inr,
}
use wiregrid.Base.Units.{Units, codes, same_units}
use wiregrid.Site.Keywords.{any_same}
use wiregrid.Mount.Topic.{
  Split, split_colon, kinds, all_digits, is_number, big_int, numbered_key, has_parts, topic_key,
}

-- The topic is spelled like a number behind `i:`.
abbrev pub looks_numbered : Split → Bool
looks_numbered s = numbered_parts s.kind s.parts
  where
    numbered_parts : Units → List Units → Bool
    numbered_parts kind [] = false
    numbered_parts kind (second ∷ more) = same_units kind (codes "i") && is_number second

abbrev pub NoColon : Units → Type 0
NoColon = All (λ c. (c == b':') ≡ false)

split_colon-append :
    (kind s : Units)
    → NoColon kind
    → split_colon (kind ++ b':' ∷ s)
      ≡ record { kind = kind; parts = (split_colon s).kind ∷ (split_colon s).parts }
unfolding split_colon
split_colon-append [] s h = refl
split_colon-append (c ∷ kind) s h = ground (arith, h.0, split_colon-append kind s h.1)

split_colon_whole : (s : Units) → NoColon s → split_colon s ≡ record { kind = s; parts = [] }
unfolding split_colon
split_colon_whole [] h = refl
split_colon_whole (c ∷ s) h = ground (arith, h.0, split_colon_whole s h.1)

all_digits-NoColon : (d : Units) → all_digits d ≡ true → NoColon d
unfolding all_digits
all_digits-NoColon [] h = tt
all_digits-NoColon (c ∷ d) h = (ground arith, all_digits-NoColon d (ground arith))

big_int_digits : (d : Units) → all_digits d ≡ true → all_digits (big_int d) ≡ true
unfolding all_digits big_int
big_int_digits [] h = refl
big_int_digits (c ∷ []) h = h
big_int_digits (c ∷ e ∷ d) h = ground (arith, big_int_digits (e ∷ d))

big_int_idem : (d : Units) → big_int (big_int d) ≡ big_int d
unfolding big_int
big_int_idem [] = refl
big_int_idem (c ∷ []) = refl
big_int_idem (c ∷ e ∷ d) = ground (arith, big_int_idem (e ∷ d))

is_number-big_int : (d : Units) → is_number d ≡ true → is_number (big_int d) ≡ true
unfolding is_number big_int
is_number-big_int [] h = absurd (ground arith)
is_number-big_int (c ∷ []) h = h
is_number-big_int (c ∷ e ∷ d) h = ground (arith, is_number-big_int (e ∷ d))

numbered_key_else :
    (topic kind first : Units) (parts : List Units)
    → looks_numbered (record { kind = first; parts = parts }) ≡ false
    → numbered_key topic kind (first ∷ parts) ≡ topic
unfolding numbered_key
numbered_key_else topic kind first [] h = refl
numbered_key_else topic kind first (second ∷ more) h =
    elim (Bool-cases (same_units kind (codes "custom"))) [
      | inl e ↦ ground (arith, e)
      | inr e ↦ ground (arith, e, h)
    ]

-- A topic of no known kind has the key of the channel of that name, unless it is spelled like a
-- number.
pub topic_key_bare :
    (topic : Units)
    → any_same (split_colon topic).kind kinds ≡ false
    → looks_numbered (split_colon topic) ≡ false
    → topic_key topic ≡ topic_key (codes "channel:" ++ topic)
unfolding topic_key has_parts any_same split_colon
topic_key_bare topic h g =
    let bare : topic_key topic ≡ codes "channel:" ++ topic = ground (arith, h) in
    bare
    ∙ sym (
        numbered_key_else (codes "channel:" ++ topic) (codes "channel") (split_colon topic).kind
          (split_colon topic).parts g)

split_numbered :
    (kind d : Units)
    → NoColon kind
    → NoColon d
    → split_colon (kind ++ (codes ":i:" ++ d)) ≡ record { kind = kind; parts = codes "i" ∷ d ∷ [] }
unfolding split_colon
split_numbered kind d n k =
    split_colon-append kind (codes "i:" ++ d) n
    ∙ ap (λ (s : Split). record { kind = kind; parts = codes "i" ∷ s.kind ∷ s.parts })
        (split_colon_whole d k)

numbered_lem :
    (kind d : Units)
    → NoColon kind
    → any_same kind kinds ≡ true
    → same_units kind (codes "custom") ≡ false
    → is_number d ≡ true
    → topic_key (kind ++ (codes ":i:" ++ d)) ≡ kind ++ (codes ":i:" ++ big_int d)
unfolding topic_key numbered_key has_parts same_units is_number
numbered_lem kind [] n k c h = absurd (ground arith)
numbered_lem kind (e ∷ d) n k c h =
    rw (topic_key, split_numbered kind (e ∷ d) n (all_digits-NoColon (e ∷ d) h), k, c, h) refl

-- The key of a numbered topic of a known kind but `custom` has the number without leading zeros, and
-- is its own key.
pub topic_key_numbered :
    (kind d : Units)
    → NoColon kind
    → any_same kind kinds ≡ true
    → same_units kind (codes "custom") ≡ false
    → is_number d ≡ true
    → (topic_key (kind ++ (codes ":i:" ++ d)) ≡ kind ++ (codes ":i:" ++ big_int d))
      × (topic_key (topic_key (kind ++ (codes ":i:" ++ d)))
          ≡ topic_key (kind ++ (codes ":i:" ++ d)))
topic_key_numbered kind d n k c h =
    let once = numbered_lem kind d n k c h in
    let again = numbered_lem kind (big_int d) n k c (is_number-big_int d h) in
    (
      once,
      ap topic_key once
          ∙ (again ∙ (ap (λ u. kind ++ (codes ":i:" ++ u)) (big_int_idem d) ∙ sym once)),
    )
