-- ===== src/Site/Search.antt =====
-- `wireSearch` of site/manual.js: the results under the search field. `toLowerCase` is a parameter.
pub mod Hits
use wiregrid.Base.{
  ℕ, zero, suc, ◌+◌, ◌-◌, ◌≤◌, ◌<◌, String, Bool, true, false, not, ◌&&◌, ◌==◌, ◌≡◌, refl, sym, ap,
  ◌∙◌, Option, none, some, List, [], ◌∷◌, ◌++◌, map, append-nil, append_assoc, arith, if◌then◌else◌,
  length, ltb, is_some, Bool-cases, inl, inr,
}
use wiregrid.Base.Units.{Units, codes, starts}
use wiregrid.Site.Keywords.{is_space}

-- `text.indexOf(q)`; `none` is -1.
unfoldable pub index_of : Units → Units → Option ℕ
unfolding starts
index_of q [] = if starts [] q then some 0 else none
index_of q (c ∷ s) =
    let rest = index_of q s in
    if starts (c ∷ s) q then some 0 else elim rest [ none ↦ none | some i ↦ some (suc i) ]

unfoldable pub trim_start : Units → Units
unfolding is_space
trim_start [] = []
trim_start (c ∷ s) = if is_space c then trim_start s else c ∷ s

unfoldable pub trim_end : Units → Units
unfolding is_space
trim_end [] = []
trim_end (c ∷ s) = elim (trim_end s) [ [] ↦ if is_space c then [] else c ∷ [] | d ∷ t ↦ c ∷ d ∷ t ]

unfoldable pub skip : ℕ → Units → Units
skip zero s = s
skip (suc n) [] = []
skip (suc n) (c ∷ s) = skip n s

unfoldable pub take {ℓ} : {A : Type ℓ} → ℕ → List A → List A
take zero l = []
take (suc n) [] = []
take (suc n) (x ∷ l) = x ∷ take n l

pub record Item : Type 0 where
  pub title : Units
  pub body : Units
  pub href : Units

pub record Hit : Type 0 where
  pub target : Units
  pub heading : Units
  pub bit : Units

-- The box: closed, open with the note that no pages match, or with hits.
pub data Box : Type 0 where
  closed no_match : Box
  listed : List Hit → Box

module _ (lower : Units → Units) where
  unfoldable pub hay : Item → Units
  hay item = lower (item.title ++ (32 ∷ item.body))

  unfoldable pub matches : Units → Item → Bool
  matches q item = is_some (index_of q (hay item))

  -- The loop over the index, with the break at eight hits.
  unfoldable pub find_hits : Units → List Item → List Item → List Item
  find_hits q [] hits = hits
  find_hits q (item ∷ l) hits =
      let more = if matches q item then hits ++ item ∷ [] else hits in
      let rest = find_hits q l more in if length more == 8 then more else rest

  -- `Math.max(0, at - 24)`.
  unfoldable pub bit_start : Units → Item → ℕ
  bit_start q item = elim (index_of q (hay item)) [ none ↦ 0 | some at ↦ at - 24 ]

  unfoldable pub show_hit : Units → Item → Hit
  unfolding take skip bit_start
  show_hit q item =
      let source : Units = elim item.body [ [] ↦ item.title | c ∷ s ↦ c ∷ s ] in
      let start : ℕ = bit_start q item in
      record {
        target = item.href;
        heading = item.title;
        bit = (if start == 0 then [] else 8230 ∷ []) ++ take 90 (skip start source);
      }

  unfoldable pub dims : Units → Units → Bool
  dims q label = ltb 0 (length q) && not (is_some (index_of q (lower label)))

  unfoldable pub query_of : Units → Units
  unfolding trim_start trim_end
  query_of query = lower (trim_end (trim_start query))

  -- The box for a query and its hits.
  unfoldable pub box_of : Units → List Item → Box
  unfolding show_hit
  box_of [] hits = closed
  box_of (c ∷ s) [] = no_match
  box_of (c ∷ s) (hit ∷ hits) = listed (map (show_hit (c ∷ s)) (hit ∷ hits))

  -- `render`: which links of the contents are dimmed, and the box.
  unfoldable pub render_search : List Units → List Item → Units → List Bool × Box
  unfolding dims query_of find_hits box_of
  render_search links index query =
      let q = query_of query in (map (dims q) links, box_of q (find_hits q index []))
