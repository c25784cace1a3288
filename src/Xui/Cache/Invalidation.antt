-- ===== src/Xui/Cache/Invalidation.antt =====
-- After an invalidation the next call goes upstream.
use x_ui_subpage.Prelude.{ℕ, ◌≤◌, ◌≡◌, none, arith}
use x_ui_subpage.Xui.Cache.{
  TtlCache, max_duration, look, invalidate, CachedLister, Upstream, list_inbounds, list_hosts,
  invalidate_lister,
}
use x_ui_subpage.Xui.Cache.Window.{get_of_missed, keep-answer}

look-invalidate :
    {T : Type 0} (zero_value : T) (now now' : ℕ) (c : TtlCache T)
    → c.ttl ≤ now
    → c.ttl ≤ max_duration
    → look now now' (invalidate zero_value c) ≡ none
unfolding look invalidate
look-invalidate zero_value now now' c late small = ground arith

-- After the lister is invalidated, whatever its two caches held and whatever their lifetimes, the
-- next call for the inbounds and the next one for the hosts ask upstream and return its answer.
-- The times are more than a lifetime past Go's zero time.
pub invalidate_lister_lem :
    {U I H : Type 0} (up : Upstream U I H) (no_inbounds : I) (no_hosts : H) (clock : ℕ → ℕ)
    (l : CachedLister I H) (u : U)
    → ((i : ℕ) → (l.inbounds.ttl ≤ clock i) × (l.hosts.ttl ≤ clock i))
    → l.inbounds.ttl ≤ max_duration
    → l.hosts.ttl ≤ max_duration
    → ((list_inbounds up clock (invalidate_lister no_inbounds no_hosts l) u).1
        ≡ (up.list_inbounds u).1)
      × ((list_inbounds up clock (invalidate_lister no_inbounds no_hosts l) u).0.1
          ≡ (up.list_inbounds u).0)
      × ((list_hosts up clock (invalidate_lister no_inbounds no_hosts l) u).1 ≡ (up.list_hosts u).1)
      × ((list_hosts up clock (invalidate_lister no_inbounds no_hosts l) u).0.1
          ≡ (up.list_hosts u).0)
unfolding list_inbounds list_hosts invalidate_lister
invalidate_lister_lem up no_inbounds no_hosts clock l u late small small' =
    let inbounds =
      get_of_missed up.list_inbounds clock (invalidate no_inbounds l.inbounds) u
        (look-invalidate no_inbounds (clock 0) (clock 1) l.inbounds (late 0).0 small)
        (look-invalidate no_inbounds (clock 2) (clock 3) l.inbounds (late 2).0 small) in
    let hosts =
      get_of_missed up.list_hosts clock (invalidate no_hosts l.hosts) u
        (look-invalidate no_hosts (clock 0) (clock 1) l.hosts (late 0).1 small')
        (look-invalidate no_hosts (clock 2) (clock 3) l.hosts (late 2).1 small') in
    let (state, answer) =
      keep-answer up.list_inbounds (clock 4) (invalidate no_inbounds l.inbounds)
        (up.list_inbounds u) in
    let (state', answer') =
      keep-answer up.list_hosts (clock 4) (invalidate no_hosts l.hosts) (up.list_hosts u) in
    rw (inbounds, hosts) (answer, state, answer', state')
