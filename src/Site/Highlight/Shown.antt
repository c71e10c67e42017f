-- ===== src/Site/Highlight/Shown.antt =====
-- What the highlighter of site/manual.js writes shows the source.
use wiregrid.Base.{
  ℕ, zero, suc, ◌≤◌, String, Bool, true, false, ◌==◌, ◌≡◌, refl, sym, ap, subst, ◌∙◌, Option, none,
  some, List, [], ◌∷◌, ◌++◌, map, append-nil, append_assoc, arith, if◌then◌else◌, length,
  length-append,
}
use wiregrid.Base.Units.{Units, codes, Cut, same_units}
use wiregrid.Site.Keywords.{words, any_same}
use wiregrid.Site.Highlight.{
  Paint, plain, comment, quoted, atom, number, keyword, replace_all, esc, span, print, token_at,
  last_of, paint_all, highlight,
}
use wiregrid.Site.Highlight.Html.{Event, unit, tag, in_text, read, shown, flat_spans, opening_tags}
use wiregrid.Site.Highlight.Cuts.{token_at-TokenOf}

esc_unit : ℕ → Units
esc_unit c =
    if c == b'&'
    then codes "&amp;"
    else if c == b'<'
    then codes "&lt;"
    else if c == b'>'
    then codes "&gt;"
    else c ∷ []

replace_all-append :
    (c : ℕ) (by s t : Units) → replace_all c by (s ++ t) ≡ replace_all c by s ++ replace_all c by t
unfolding replace_all
replace_all-append c by [] t = refl
replace_all-append c by (d ∷ s) t =
    ap (λ u. (if d == c then by else d ∷ []) ++ u) (replace_all-append c by s t)
    ∙ sym (append_assoc (if d == c then by else d ∷ []) (replace_all c by s) (replace_all c by t))

esc-append : (s t : Units) → esc (s ++ t) ≡ esc s ++ esc t
unfolding esc
esc-append s t = simp replace_all-append

esc_one : (c : ℕ) → esc (c ∷ []) ≡ esc_unit c
unfolding esc replace_all esc_unit
esc_one c = ground arith

read_unit : (c : ℕ) (rest : Units) → read in_text (esc_unit c ++ rest) ≡ unit c ∷ read in_text rest
unfolding esc_unit read
read_unit c rest = ground arith

-- `out` is read, whatever follows it, as some events that show `src` in flat spans.
record Shows (out src : Units) : Type 0 where
  events : List Event
  reads : (rest : Units) → read in_text (out ++ rest) ≡ events ++ read in_text rest
  shows : (l : List Event) → shown (events ++ l) ≡ src ++ shown l
  flat : (l : List Event) → flat_spans false (events ++ l) ≡ flat_spans false l

nothing-Shows : Shows [] []
nothing-Shows = record { events = []; reads = λ rest. refl; shows = λ l. refl; flat = λ l. refl }

append-Shows : (o p s t : Units) → Shows o s → Shows p t → Shows (o ++ p) (s ++ t)
append-Shows o p s t v w = record {
  events = v.events ++ w.events;
  reads = λ rest.
      ap (read in_text) (append_assoc o p rest)
      ∙ (v.reads (p ++ rest)
          ∙ (ap (λ l. v.events ++ l) (w.reads rest)
              ∙ sym (append_assoc v.events w.events (read in_text rest))));
  shows = λ l.
      ap shown (append_assoc v.events w.events l)
      ∙ (v.shows (w.events ++ l)
          ∙ (ap (λ u. s ++ u) (w.shows l) ∙ sym (append_assoc s t (shown l))));
  flat = λ l.
      ap (flat_spans false) (append_assoc v.events w.events l)
      ∙ (v.flat (w.events ++ l) ∙ w.flat l);
}

read-esc : (s rest : Units) → read in_text (esc s ++ rest) ≡ map unit s ++ read in_text rest
unfolding esc replace_all
read-esc [] rest = refl
read-esc (c ∷ s) rest =
    ap (λ u. read in_text (u ++ rest)) (esc-append (c ∷ []) s ∙ ap (λ u. u ++ esc s) (esc_one c))
    ∙ (ap (read in_text) (append_assoc (esc_unit c) (esc s) rest)
        ∙ (read_unit c (esc s ++ rest) ∙ ap (◌∷◌ (unit c)) (read-esc s rest)))

shown-units : (s : Units) (l : List Event) → shown (map unit s ++ l) ≡ s ++ shown l
unfolding shown
shown-units [] l = refl
shown-units (c ∷ s) l = ap (◌∷◌ c) (shown-units s l)

flat-units :
    (b : Bool) (s : Units) (l : List Event) → flat_spans b (map unit s ++ l) ≡ flat_spans b l
unfolding flat_spans
flat-units true [] l = refl
flat-units false [] l = refl
flat-units true (c ∷ s) l = flat-units true s l
flat-units false (c ∷ s) l = flat-units false s l

esc-Shows : (s : Units) → Shows (esc s) s
esc-Shows s = record {
  events = map unit s;
  reads = read-esc s;
  shows = shown-units s;
  flat = flat-units false s;
}

read_closing :
    (rest : Units)
    → read in_text (codes "</span>" ++ rest) ≡ tag (codes "/span") ∷ read in_text rest
unfolding read
read_closing rest = refl

-- A span, whose tags are read as they are written.
span-Shows :
    (cls : String) (opening s : Units)
    → ((rest : Units)
        → read in_text (codes "<span class=\"" ++ (codes cls ++ (codes "\">" ++ rest)))
          ≡ tag opening ∷ read in_text rest)
    → any_same opening opening_tags ≡ true
    → Shows (span cls s) s
unfolding span shown flat_spans same_units
span-Shows cls opening s opens known = record {
  events = tag opening ∷ (map unit s ++ tag (codes "/span") ∷ []);
  reads = λ rest.
      ap (read in_text) (regroup (codes "<span class=\"") (codes cls) (codes "\">") rest)
      ∙ (opens (esc s ++ (codes "</span>" ++ rest))
          ∙ ap (◌∷◌ (tag opening)) (
              read-esc s (codes "</span>" ++ rest)
              ∙ (ap (λ l. map unit s ++ l) (read_closing rest)
                  ∙ sym
                      (append_assoc (map unit s) (tag (codes "/span") ∷ []) (read in_text rest)))));
  shows = λ l.
      ap shown (append_assoc (map unit s) (tag (codes "/span") ∷ []) l)
      ∙ shown-units s (tag (codes "/span") ∷ l);
  flat = λ l. rw known (
      ap (flat_spans true) (append_assoc (map unit s) (tag (codes "/span") ∷ []) l)
      ∙ flat-units true s (tag (codes "/span") ∷ l));
}
  where
    regroup :
        (a b c rest : Units)
        → (a ++ (b ++ (c ++ (esc s ++ codes "</span>")))) ++ rest
          ≡ a ++ (b ++ (c ++ (esc s ++ (codes "</span>" ++ rest))))
    regroup a b c rest = simp append_assoc

print-Shows : (p : Paint) (s : Units) → Shows (print p s) s
unfolding print read any_same
print-Shows plain s = esc-Shows s
print-Shows comment s = span-Shows "tok-cmt" (codes "span class=\"tok-cmt\"") s (λ rest. refl) refl
print-Shows quoted s = span-Shows "tok-str" (codes "span class=\"tok-str\"") s (λ rest. refl) refl
print-Shows atom s = span-Shows "tok-atom" (codes "span class=\"tok-atom\"") s (λ rest. refl) refl
print-Shows number s = span-Shows "tok-num" (codes "span class=\"tok-num\"") s (λ rest. refl) refl
print-Shows keyword s = span-Shows "tok-kw" (codes "span class=\"tok-kw\"") s (λ rest. refl) refl

-- The loop ends, and shows what it was given.
paint_all-Shows :
    (fuel : ℕ) (lang : String) (kw : List Units) (before : Option ℕ) (s out src : Units)
    → length s ≤ fuel
    → Shows out src
    → (html : Units) × (paint_all fuel lang kw before s out ≡ some html) × Shows html (src ++ s)
unfolding paint_all
paint_all-Shows zero lang kw before [] out src h v =
    (out, refl, subst (Shows out) (sym (append-nil src)) v)
paint_all-Shows (suc fuel) lang kw before [] out src h v =
    (out, refl, subst (Shows out) (sym (append-nil src)) v)
paint_all-Shows zero lang kw before (c ∷ s) out src h v = absurd (omega arith)
paint_all-Shows (suc fuel) lang kw before (c ∷ s) out src h v =
    let t = token_at lang kw before c s in
    let k = token_at-TokenOf lang kw before c s in
    let whole : t.cut.taken ++ t.cut.left ≡ c ∷ s =
      ap (λ (u : Cut). u.taken ++ u.left) k.headed ∙ ap (◌∷◌ c) k.whole in
    let left : length t.cut.left ≤ fuel = omega (
      arith,
      ap (λ (u : Cut). length u.left) k.headed,
      length-append k.tail.taken k.tail.left,
      ap length k.whole,
    ) in
    let (html, e, w) =
      paint_all-Shows fuel lang kw (last_of before t.cut.taken) t.cut.left
        (out ++ print t.paint t.cut.taken) (src ++ t.cut.taken) left
        (append-Shows out (print t.paint t.cut.taken) src t.cut.taken v
          (print-Shows t.paint t.cut.taken)) in
    (
      html,
      e,
      subst (Shows html) (append_assoc src t.cut.taken t.cut.left ∙ ap (λ u. src ++ u) whole) w,
    )

-- If `words` does not throw at the language, `highlight` returns, and what it writes is HTML whose
-- text is the source and whose tags are spans of the five classes, none within another.
pub highlight-shown :
    (src : Units) (lang : String) {kw : List Units}
    → words lang ≡ some kw
    → (html : Units) × (highlight src lang ≡ some html)
      × (shown (read in_text html) ≡ src)
      × (flat_spans false (read in_text html) ≡ true)
unfolding highlight read shown flat_spans
highlight-shown src lang {kw} e =
    let (html, f, v) =
      paint_all-Shows (length src) lang kw none src [] [] (omega arith) nothing-Shows in
    let reads : read in_text html ≡ v.events ++ [] =
      ap (read in_text) (sym (append-nil html)) ∙ v.reads [] in
    (html, rw (highlight, e) f, rw reads (v.shows [] ∙ append-nil src), rw reads (v.flat []))
