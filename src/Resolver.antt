-- ===== src/Resolver.antt =====
-- internal/resolver/resolver.go: from a subscription token to a subscription. Milliseconds of an
-- expiry are compared with the clock's nanoseconds since the Unix epoch.
pub mod Verdict
pub mod Totals
pub mod Failures
mod Tests
use x_ui_subpage.Prelude.{
  ℕ, ◌*◌, String, Bool, true, false, not, ◌&&◌, ◌||◌, Option, none, some, List, [], ◌∷◌, ltb, eqb,
  if◌then◌else◌, ◌==◌, Error, not_found, wrap, Result, ok, err,
}
use x_ui_subpage.Prelude.Int.{ℤ, pos, pos_part, eqb_ℤ, ltb_ℤ, leb_ℤ, add64}
use x_ui_subpage.Domain.{
  MatchedClient, TrafficStats, used, Status, active, expired, depleted, disabled, Subscription,
}
use x_ui_subpage.Xui.Models.{Inbound, HostGroup}
use x_ui_subpage.Xui.Parse.{Std, matched_clients_by_sub_id}

-- The interface `Lister`, on the state `U` of what stands behind it.
pub record Lister (U : Type 0) : Type 0 where
  pub list_inbounds : U → U × Result (List Inbound)
  pub list_hosts : U → U × Result (List HostGroup)
  pub get_sub_links : String → U → U × Result (List String)

-- The variables of the loop over the matches.
pub record Sums : Type 0 where
  pub username : String
  pub any_enabled : Bool
  pub up : ℤ
  pub down : ℤ
  pub total : ℤ
  pub min_expiry : ℤ

abbrev pub no_sums : Sums
no_sums = record {
  username = "";
  any_enabled = false;
  up = pos 0;
  down = pos 0;
  total = pos 0;
  min_expiry = pos 0;
}

-- m.Client.ExpiryMs > 0 && (minExpiryMs == 0 || m.Client.ExpiryMs < minExpiryMs)
abbrev pub is_sooner : ℤ → ℤ → Bool
is_sooner expiry least = ltb_ℤ (pos 0) expiry && (eqb_ℤ least (pos 0) || ltb_ℤ expiry least)

unfoldable pub add_match : Sums → MatchedClient → Sums
add_match s m = record {
  username = if s.username == "" && not (m.client.email == "") then m.client.email else s.username;
  any_enabled = if m.client.enable then true else s.any_enabled;
  up = add64 s.up m.client.up;
  down = add64 s.down m.client.down;
  total = if ltb_ℤ s.total m.client.total_gb then m.client.total_gb else s.total;
  min_expiry =
      if is_sooner m.client.expiry_ms s.min_expiry then m.client.expiry_ms else s.min_expiry;
}

unfoldable pub sum_matches : Sums → List MatchedClient → Sums
unfolding add_match
sum_matches s [] = s
sum_matches s (m ∷ ms) = sum_matches (add_match s m) ms

-- `expiresAt.Before(time.Now())`; the expiry is positive where there is one.
abbrev pub is_before : ℤ → ℕ → Bool
is_before expiry_ms now = ltb (pos_part expiry_ms * 1_000_000) now

abbrev pub has_expired : Option ℤ → ℕ → Bool
has_expired none now = false
has_expired (some t) now = is_before t now

unfoldable pub compute_status : Bool → Option ℤ → TrafficStats → ℕ → Status
compute_status any_enabled expires_at traffic now =
    if not any_enabled
    then disabled
    else if has_expired expires_at now
    then expired
    else if ltb_ℤ (pos 0) traffic.total && leb_ℤ traffic.total (used traffic)
    then depleted
    else active

abbrev pub expires_at_of : ℤ → Option ℤ
expires_at_of least = if ltb_ℤ (pos 0) least then some least else none

-- The subscription that the matches make.
unfoldable pub summarise : ℕ → String → List MatchedClient → List String → Subscription
unfolding sum_matches compute_status
summarise now sub_id matches links =
    let s = sum_matches no_sums matches in
    let traffic : TrafficStats = record { up = s.up; down = s.down; total = s.total } in
    record {
      sub_id = sub_id;
      username = s.username;
      status = compute_status s.any_enabled (expires_at_of s.min_expiry) traffic now;
      expires_at = expires_at_of s.min_expiry;
      traffic = traffic;
      clients = matches;
      links = links;
    }

-- `hosts, _ := …`: a failure leaves no hosts.
abbrev pub hosts_or_none : Result (List HostGroup) → List HostGroup
hosts_or_none (ok hosts) = hosts
hosts_or_none (err _) = []

module _ {U : Type 0} (std : Std) (lister : Lister U) (fallback_host : String) (now : ℕ) where
  unfoldable pub with_links :
      String → List MatchedClient → U × Result (List String) → U × Result Subscription
  with_links sub_id matches (u, err e) = (u, err (wrap "resolver: get sub links" e))
  with_links sub_id matches (u, ok links) = (u, ok (summarise now sub_id matches links))

  unfoldable pub with_matches : String → U → Result (List MatchedClient) → U × Result Subscription
  unfolding with_links
  with_matches sub_id u (err e) = (u, err e)
  with_matches sub_id u (ok []) = (u, err not_found)
  with_matches sub_id u (ok (m ∷ matches)) =
      with_links sub_id (m ∷ matches) (lister.get_sub_links sub_id u)

  unfoldable pub with_inbounds : String → U × Result (List Inbound) → U × Result Subscription
  unfolding with_matches
  with_inbounds sub_id (u, err e) = (u, err e)
  with_inbounds sub_id (u, ok inbounds) =
      let (u', hosts) = lister.list_hosts u in
      with_matches sub_id u'
        (matched_clients_by_sub_id std inbounds (hosts_or_none hosts) sub_id fallback_host)

  unfoldable pub resolve : String → U → U × Result Subscription
  unfolding with_inbounds
  resolve sub_id u = with_inbounds sub_id (lister.list_inbounds u)
