-- ===== src/Core/Theme.antt =====
-- `setTheme`, `restoreTheme` and `setDensity` of priv/ui/js/core.js. `present` tells that there is a
-- root element, `usable` that the storage does not throw.
use wiregrid.Base.{
  String, Bool, true, false, ◌≡◌, refl, ◌≢◌, Option, none, some, ite, if_neg, if◌then◌else◌,
  String_discrete,
}

pub record Page : Type 0 where
  pub present : Bool
  pub usable : Bool
  pub theme : Option String
  pub density : Option String
  pub stored : Option String

unfoldable pub set_theme : String → Page → Page
set_theme theme page =
    if page.present
    then (if page.usable
        then record page { theme = some theme; stored = some theme }
        else record page { theme = some theme })
    else page

-- `getItem(...) || fallback`: an empty text counts as none.
unfoldable pub stored_or : String → Option String → String
stored_or fallback none = fallback
stored_or fallback (some theme) = ite (String_discrete theme "") fallback theme

unfoldable pub restore_theme : String → Page → Page × String
restore_theme fallback page =
    let theme = if page.usable then stored_or fallback page.stored else fallback in
    (set_theme theme page, theme)

unfoldable pub set_density : String → Page → Page
set_density density page = if page.present then record page { density = some density } else page

-- A theme that is not empty and was set on a root element, whatever density was set then, is put on
-- any other root element by `restoreTheme`, such as that of the next page, if the storage works and
-- the other page has the same: `restoreTheme` returns the theme, writes it to the root and stores it
-- again, and changes nothing else, not the density. Where the storage throws, it does so with the
-- fallback instead, which is not stored.
pub restore_theme-set_theme :
    (theme density fallback : String) (page other : Page)
    → page.present ≡ true
    → page.usable ≡ true
    → other.present ≡ true
    → theme ≢ ""
    → (restore_theme fallback (record other {
      usable = true;
      stored = (set_density density (set_theme theme page)).stored;
    })
        ≡ (record other { usable = true; theme = some theme; stored = some theme }, theme))
      × (restore_theme fallback (record other { usable = false })
          ≡ (record other { usable = false; theme = some fallback }, fallback))
unfolding restore_theme set_theme set_density stored_or
restore_theme-set_theme theme density fallback page other p u q h =
    (rw (p, u, q, if_neg (String_discrete theme "") h) refl, rw q refl)
