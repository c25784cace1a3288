-- ===== src/Resolver/Verdict.antt =====
-- The status of a subscription and its expiry, in terms of the clients that matched.
use x_ui_subpage.Prelude.{
  ℕ, ◌≡◌, ap, ◌∙◌, String, Bool, false, ◌&&◌, ◌||◌, Option, List, [], ◌∷◌, arith, if◌then◌else◌,
}
use x_ui_subpage.Prelude.Int.{ℤ, pos, ◌≤ℤ◌, ltb_ℤ, leb_ℤ}
use x_ui_subpage.Domain.{
  MatchedClient, Status, active, expired, depleted, disabled, used, Subscription, TrafficStats,
}
use x_ui_subpage.Resolver.{
  Sums, no_sums, is_sooner, is_before, has_expired, expires_at_of, add_match, sum_matches,
  summarise, compute_status,
}

abbrev pub some_match : (MatchedClient → Bool) → List MatchedClient → Bool
some_match p [] = false
some_match p (m ∷ ms) = p m || some_match p ms

abbrev pub is_enabled : MatchedClient → Bool
is_enabled m = m.client.enable

-- The client has an expiry, and it has passed.
abbrev pub is_over : ℕ → MatchedClient → Bool
is_over now m = ltb_ℤ (pos 0) m.client.expiry_ms && is_before m.client.expiry_ms now

sum_matches-any_enabled :
    (s : Sums) (ms : List MatchedClient)
    → (sum_matches s ms).any_enabled ≡ (s.any_enabled || some_match is_enabled ms)
unfolding sum_matches
sum_matches-any_enabled s [] = ground arith
sum_matches-any_enabled s (m ∷ ms) = ground (arith, sum_matches-any_enabled (add_match s m) ms)

passed : ℕ → ℤ → Bool
passed now least = ltb_ℤ (pos 0) least && is_before least now

abbrev sooner : ℤ → ℤ → ℤ
sooner expiry least = if is_sooner expiry least then expiry else least

passed-sooner :
    (now : ℕ) (expiry least : ℤ)
    → pos 0 ≤ℤ least
    → passed now (sooner expiry least) ≡ (passed now least || passed now expiry)
unfolding passed
passed-sooner now expiry least h = ground arith

sooner_nonneg : (expiry least : ℤ) → pos 0 ≤ℤ least → pos 0 ≤ℤ sooner expiry least
sooner_nonneg expiry least h = ground arith

or_regroup : (a b c : Bool) → ((a || b) || c) ≡ (a || (b || c))
or_regroup a b c = ground arith

sum_matches-passed :
    (now : ℕ) (s : Sums) (ms : List MatchedClient)
    → pos 0 ≤ℤ s.min_expiry
    → passed now (sum_matches s ms).min_expiry
      ≡ (passed now s.min_expiry || some_match (is_over now) ms)
unfolding sum_matches passed
sum_matches-passed now s [] h = ground arith
sum_matches-passed now s (m ∷ ms) h =
    sum_matches-passed now (add_match s m) ms (sooner_nonneg m.client.expiry_ms s.min_expiry h)
    ∙ ap (λ b. b || some_match (is_over now) ms)
        (passed-sooner now m.client.expiry_ms s.min_expiry h)
    ∙ or_regroup (passed now s.min_expiry) (passed now m.client.expiry_ms)
        (some_match (is_over now) ms)

has_expired-passed :
    (now : ℕ) (least : ℤ) → has_expired (expires_at_of least) now ≡ passed now least
unfolding passed
has_expired-passed now least = ground arith

-- The verdict: disabled when no matched client is enabled, else expired when some client's expiry
-- has passed, else depleted when a quota is set and the traffic has reached it, else active.
abbrev pub verdict : ℕ → List MatchedClient → Subscription → Status
verdict now ms sub =
    if some_match is_enabled ms
    then (if some_match (is_over now) ms
        then expired
        else if ltb_ℤ (pos 0) sub.traffic.total && leb_ℤ sub.traffic.total (used sub.traffic)
        then depleted
        else active)
    else disabled

compute_status-eq :
    (any_enabled over enabled : Bool) (expires_at : Option ℤ) (t : TrafficStats) (now : ℕ)
    → any_enabled ≡ enabled
    → has_expired expires_at now ≡ over
    → compute_status any_enabled expires_at t now ≡ (
        if enabled
        then (if over
            then expired
            else if ltb_ℤ (pos 0) t.total && leb_ℤ t.total (used t)
            then depleted
            else active)
        else disabled)
unfolding compute_status
compute_status-eq any_enabled over enabled expires_at t now e h = ground arith

-- A subscription's status is the verdict over its matched clients.
pub summarise-status :
    (now : ℕ) (sub_id : String) (ms : List MatchedClient) (links : List String)
    → (summarise now sub_id ms links).status ≡ verdict now ms (summarise now sub_id ms links)
unfolding summarise passed
summarise-status now sub_id ms links =
    compute_status-eq _ _ _ _ _ now (sum_matches-any_enabled no_sums ms) (
      has_expired-passed now (sum_matches no_sums ms).min_expiry
      ∙ sum_matches-passed now no_sums ms (omega arith))
