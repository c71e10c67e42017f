-- ===== src/Site/Search/Hits.antt =====
-- What the search of site/manual.js finds.
use wiregrid.Base.{
  ℕ, zero, suc, ◌+◌, Bool, true, false, ◌==◌, ◌≡◌, refl, sym, ap, ◌∙◌, List, [], ◌∷◌, ◌++◌,
  append-nil, append_assoc, arith, if◌then◌else◌, length, length-append, Bool-cases, inl, inr,
}
use wiregrid.Base.Units.{Units}
use wiregrid.Site.Search.{take, Item, matches, find_hits, query_of, box_of, render_search}

-- The elements that a test keeps.
unfoldable pub select {ℓ} : {A : Type ℓ} → (A → Bool) → List A → List A
select test [] = []
select test (x ∷ l) = if test x then x ∷ select test l else select test l

module _ (lower : Units → Units) where
  find_hits-take :
      (q : Units) (l hits : List Item) (room : ℕ)
      → length hits + suc room ≡ 8
      → find_hits lower q l hits ≡ hits ++ take (suc room) (select (matches lower q) l)
  unfolding find_hits take select
  find_hits-take q [] hits room h = sym (append-nil hits)
  find_hits-take q (item ∷ l) hits zero h = elim (Bool-cases (matches lower q item)) [
    | inl e ↦
        let full : (length (hits ++ item ∷ []) == 8) ≡ true =
          ground (arith, length-append hits (item ∷ [])) in
        rw (e, full) refl
    | inr e ↦
        let short : (length hits == 8) ≡ false = ground arith in
        rw (e, short) (find_hits-take q l hits zero h)
  ]
  find_hits-take q (item ∷ l) hits (suc room) h = elim (Bool-cases (matches lower q item)) [
    | inl e ↦
        let short : (length (hits ++ item ∷ []) == 8) ≡ false =
          ground (arith, length-append hits (item ∷ [])) in
        rw (e, short)
          (find_hits-take q l (hits ++ item ∷ []) room
              (omega (arith, length-append hits (item ∷ [])))
            ∙ append_assoc hits (item ∷ []) (take (suc room) (select (matches lower q) l)))
    | inr e ↦
        let short : (length hits == 8) ≡ false = ground arith in
        rw (e, short) (find_hits-take q l hits (suc room) h)
  ]

  -- The box is that of the first eight pages that match the query, in their order.
  pub render_search-select :
      (links : List Units) (index : List Item) (query : Units)
      → (render_search lower links index query).1
        ≡ box_of lower
            (query_of lower query)
            (take 8 (select (matches lower (query_of lower query)) index))
  unfolding render_search
  render_search-select links index query =
      let q = query_of lower query in ap (box_of lower q) (find_hits-take q index [] 7 refl)
