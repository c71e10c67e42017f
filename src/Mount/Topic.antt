-- ===== src/Mount/Topic.antt =====
-- `topicKey` of priv/ui/js/mount.js.
use wiregrid.Base.{
  Bool, true, false, not, ◌&&◌, ◌||◌, ◌==◌, List, [], ◌∷◌, ◌++◌, map, if◌then◌else◌,
}
use wiregrid.Base.Units.{Units, codes, same_units, between}
use wiregrid.Site.Keywords.{any_same}

-- `topic.split(":")`: the first part and the others.
pub record Split : Type 0 where
  pub kind : Units
  pub parts : List Units

unfoldable pub split_colon : Units → Split
split_colon [] = record { kind = []; parts = [] }
split_colon (c ∷ s) =
    let r = split_colon s in
    if c == b':'
    then record { kind = []; parts = r.kind ∷ r.parts }
    else record { kind = c ∷ r.kind; parts = r.parts }

abbrev pub kinds : List Units
kinds = map codes ("channel" ∷ "thread" ∷ "room" ∷ "user" ∷ "game" ∷ "document" ∷ "custom" ∷ [])

unfoldable pub all_digits : Units → Bool
all_digits [] = true
all_digits (c ∷ s) = between b'0' b'9' c && all_digits s

-- `/^\d+$/.test`.
unfoldable pub is_number : Units → Bool
unfolding all_digits
is_number [] = false
is_number (c ∷ s) = all_digits (c ∷ s)

-- `${BigInt(digits)}`: the number without its leading zeros.
unfoldable pub big_int : Units → Units
big_int [] = []
big_int (c ∷ []) = c ∷ []
big_int (c ∷ d ∷ s) = let rest = big_int (d ∷ s) in if c == b'0' then rest else c ∷ d ∷ s

-- The last two cases, for the parts behind a known kind.
unfoldable pub numbered_key : Units → Units → List Units → Units
unfolding same_units is_number big_int
numbered_key topic kind (first ∷ second ∷ more) =
    if not (same_units kind (codes "custom")) && (same_units first (codes "i") && is_number second)
    then kind ++ (codes ":i:" ++ big_int second)
    else topic
numbered_key topic kind parts = topic

unfoldable pub has_parts : List Units → Bool
has_parts [] = false
has_parts (p ∷ l) = true

unfoldable pub topic_key : Units → Units
unfolding split_colon any_same numbered_key has_parts
topic_key topic =
    let s = split_colon topic in
    if not (any_same s.kind kinds) || not (has_parts s.parts)
    then codes "channel:" ++ topic
    else numbered_key topic s.kind s.parts
