-- ===== src/Site/Tests.antt =====
-- A page of the manual, and the theorems at it (site/manual.js).
use wiregrid.Base.{◌≢◌, true, String, ◌≡◌, refl, true, false, none, some, List, [], ◌∷◌}
use wiregrid.Base.Units.{Units, codes}
use wiregrid.Site.Keywords.{words}
use wiregrid.Site.Highlight.{highlight}
use wiregrid.Site.Highlight.Html.{read, in_text, shown, flat_spans}
use wiregrid.Site.Highlight.Shown.{highlight-shown}
use wiregrid.Site.Blocks.{
  Code, Enhanced, enhance_all, AllFaithful, enhance_all-Faithful, lang_of, is_run, language_class,
}
use wiregrid.Site.Search.{Item, render_search, box_of, matches, query_of, take}
use wiregrid.Site.Search.Hits.{select, render_search-select}

painted_json :
    highlight (codes "[null<1]") "json"
    ≡ some (codes "[<span class=\"tok-kw\">null</span>&lt;<span class=\"tok-num\">1</span>]")
unfolding highlight
painted_json = refl

painted_inherited : highlight (codes "x") "constructor" ≡ none
unfolding highlight
painted_inherited = refl

highlight-shown_example :
    (html : Units) × (highlight (codes "if a & \"<b>\" # no") "elixir" ≡ some html)
    × (shown (read in_text html) ≡ codes "if a & \"<b>\" # no")
    × (flat_spans false (read in_text html) ≡ true)
unfolding words
highlight-shown_example = highlight-shown (codes "if a & \"<b>\" # no") "elixir" refl

abbrev listing : Code
listing = record {
  class_name = "block language-sql";
  content = codes "SELECT 1\n";
  wrapped = false;
}

enhance_all-Faithful_example :
    (done : List Enhanced) × (enhance_all (listing ∷ []) ≡ some done)
    × AllFaithful (listing ∷ []) done
    × ((name : String) → is_run name ≡ true → name ≢ "" → lang_of (language_class name) ≡ name)
unfolding words lang_of
enhance_all-Faithful_example = enhance_all-Faithful (listing ∷ []) ((_, refl), tt)

abbrev front : Item
front = record { title = codes "front"; body = codes "realtime library"; href = codes "index.html" }

render_search-select_example :
    (render_search (λ s. s) (codes "front" ∷ []) (front ∷ []) (codes " time ")).1
    ≡ box_of
        (λ s. s)
        (query_of (λ s. s) (codes " time "))
        (take 8 (select (matches (λ s. s) (query_of (λ s. s) (codes " time "))) (front ∷ [])))
render_search-select_example =
    render_search-select (λ s. s) (codes "front" ∷ []) (front ∷ []) (codes " time ")
