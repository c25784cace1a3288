-- ===== src/Routing/Tests.antt =====
-- Runs of the routing store.
use x_ui_subpage.Prelude.{◌≡◌, refl, true, none, [], ok, first, upsert}
use x_ui_subpage.Routing.{Db, get, set}

abbrev empty : Db
empty = record { rows = []; generator = none }

set_then_get : get none "tok" (set none 1 "tok" true "b64" empty).0 ≡ ok (true, "b64")
unfolding get set first upsert
set_then_get = refl
