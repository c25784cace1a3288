-- ===== src/Xui/Dynamic/Tests.antt =====
-- The theorem on the reloading client after a change of the settings.
use x_ui_subpage.Prelude.{ℕ, ◌≡◌, refl, ◌↔◌, none, some, Result, ok, String, eqb, if◌then◌else◌}
use x_ui_subpage.Xui.Client.{Client}
use x_ui_subpage.Xui.Dynamic.{DynamicClient, Settings, client}
use x_ui_subpage.Xui.Dynamic.Coherence.{IsCoherent, client-IsCoherent}

abbrev named : String → Client
named base_url = record { base_url = base_url; api_key = "key"; max_attempts = 3 }

-- The first settings name one panel, all later ones another.
abbrev made : ℕ → Result Client
made t = if eqb t 1 then ok (named "http://old") else ok (named "http://new")

abbrev old : DynamicClient
old = record { current = some (named "http://old"); loaded_at = 1 }

abbrev settings : Settings
settings = record { fault = none; updated_at = some 2; load = ok (named "http://new") }

reloaded :
    client settings old old
    ≡ (record { current = some (named "http://new"); loaded_at = 2 }, ok (named "http://new"))
unfolding client
reloaded = refl

client-IsCoherent_example :
    ((c : Client) → ((client settings old old).1 ≡ ok c) ↔ (ok (named "http://new") ≡ ok c))
    × IsCoherent made (client settings old old).0
client-IsCoherent_example =
    client-IsCoherent made settings old old refl refl (λ c h. cc) (λ c h. cc)
