-- ===== src/TmplCache/Tests.antt =====
-- The theorems on the cache of templates at concrete rows.
use x_ui_subpage.Prelude.{
  ℕ, ◌≡◌, refl, none, some, List, [], ◌∷◌, String, eqb, if◌then◌else◌, Result, ok, first, upsert,
  delete_where,
}
use x_ui_subpage.Templates.{Row, row_of, put, delete}
use x_ui_subpage.TmplCache.{Cache, get}
use x_ui_subpage.TmplCache.Versions.{IsVersioned}
use x_ui_subpage.TmplCache.Coherence.{Served, opened, called, emptied, get-Served}
use x_ui_subpage.TmplCache.Freshness.{compiled, of_default, edit-get}

-- Compiling that keeps the text.
abbrev as_text : String → String → Result String
as_text name content = ok content

abbrev fresh_cache : Cache String
fresh_cache = record { format = "clash"; parse = as_text; entries = [] }

abbrev rows : List Row
rows = row_of "clash" "default" "" "d" 1 ∷ row_of "clash" "gaming" "" "g" 2 ∷ []

abbrev versions : String → ℕ → String
versions key stamp = if eqb stamp 1 then "d" else if eqb stamp 2 then "g" else "h"

rows-IsVersioned : IsVersioned versions "clash" rows
rows-IsVersioned = ((λ _. refl), ((λ _. refl), tt))

abbrev warm : Cache String
warm = (get none none "gaming" "" rows fresh_cache).0

warm-Served : Served versions warm
warm-Served = called none none "gaming" "" rows (opened "clash" as_text) rows-IsVersioned

get-Served_example :
    (get none none "other" "" rows warm).1 ≡ (get none none "other" "" rows (emptied warm)).1
unfolding get first
get-Served_example = get-Served versions none none "other" "" rows warm warm-Served rows-IsVersioned

abbrev after_put : List Row
after_put = (put none 3 "clash" "gaming" "" "h" rows).0

abbrev after_delete : List Row
after_delete = (delete none "clash" "gaming" "" rows).0

put-IsVersioned : IsVersioned versions "clash" after_put
unfolding put upsert
put-IsVersioned = ((λ _. refl), ((λ _. refl), tt))

delete-IsVersioned : IsVersioned versions "clash" after_delete
unfolding delete delete_where
delete-IsVersioned = ((λ _. refl), tt)

edit-get_example :
    ((get none none "gaming" "" after_put warm).1 ≡ compiled warm "gaming" "" "h")
    × ((get none none "gaming" "" after_delete warm).1
        ≡ of_default warm "gaming" "" (some (row_of "clash" "default" "" "d" 1)))
unfolding get first
edit-get_example =
    edit-get versions 3 "gaming" "" "h" rows warm warm-Served put-IsVersioned delete-IsVersioned
