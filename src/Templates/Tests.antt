-- ===== src/Templates/Tests.antt =====
-- Runs of the template store.
use x_ui_subpage.Prelude.{◌≡◌, refl, true, none, [], ◌∷◌, ok, select, upsert}
use x_ui_subpage.Templates.{row_of, put, order_by, unseen, profiles_for_formats}

-- With an order that takes rows as they come, each profile stands once, "default" first.
profiles :
    profiles_for_formats
      (λ _ _. true)
      none
      ("clash" ∷ [])
      (row_of "clash" "gaming" "" "g" 1
        ∷ row_of "happ" "tv" "" "t" 1
        ∷ row_of "clash" "default" "" "d" 1
        ∷ [])
    ≡ ok ("default" ∷ "gaming" ∷ [])
unfolding profiles_for_formats order_by unseen select
profiles = refl

overwrites :
    put none 2 "clash" "gaming" "" "h" (row_of "clash" "gaming" "" "g" 1 ∷ [])
    ≡ (row_of "clash" "gaming" "" "h" 2 ∷ [], none)
unfolding put upsert
overwrites = refl
