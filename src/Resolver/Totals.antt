-- ===== src/Resolver/Totals.antt =====
-- The sums over the matches of a subscription.
use x_ui_subpage.Prelude.{
  ℕ, String, ◌≡◌, refl, ap, ◌∙◌, Bool, true, false, List, [], ◌∷◌, arith, All, inl, inr,
  if◌then◌else◌, ◌⊎◌, In, here, there,
}
use x_ui_subpage.Prelude.Int.{ℤ, pos, ◌+ℤ◌, ◌≤ℤ◌, ltb_ℤ, IsInt64, add64-eq_add}
use x_ui_subpage.Domain.{MatchedClient}
use x_ui_subpage.Resolver.{Sums, no_sums, add_match, sum_matches, summarise}

-- The exact sum of a counter, from a start.
abbrev pub total_of : (MatchedClient → ℤ) → ℤ → List MatchedClient → ℤ
total_of f acc [] = acc
total_of f acc (m ∷ ms) = total_of f (acc +ℤ f m) ms

-- Every partial sum is an int64.
abbrev pub Fits : (MatchedClient → ℤ) → ℤ → List MatchedClient → Type 0
Fits f acc [] = Unit
Fits f acc (m ∷ ms) = IsInt64 (acc +ℤ f m) × Fits f (acc +ℤ f m) ms

-- While no partial sum leaves int64, the traffic is the exact sum of the matches' counters.
sum_matches-up :
    (s : Sums) (ms : List MatchedClient)
    → Fits (λ m. m.client.up) s.up ms
    → (sum_matches s ms).up ≡ total_of (λ m. m.client.up) s.up ms
unfolding sum_matches
sum_matches-up s [] h = refl
sum_matches-up s (m ∷ ms) (p, h) =
    sum_matches-up (add_match s m) ms (rw (add64-eq_add s.up m.client.up p) h)
    ∙ ap (λ a. total_of (λ m. m.client.up) a ms) (add64-eq_add s.up m.client.up p)

sum_matches-down :
    (s : Sums) (ms : List MatchedClient)
    → Fits (λ m. m.client.down) s.down ms
    → (sum_matches s ms).down ≡ total_of (λ m. m.client.down) s.down ms
unfolding sum_matches
sum_matches-down s [] h = refl
sum_matches-down s (m ∷ ms) (p, h) =
    sum_matches-down (add_match s m) ms (rw (add64-eq_add s.down m.client.down p) h)
    ∙ ap (λ a. total_of (λ m. m.client.down) a ms) (add64-eq_add s.down m.client.down p)

-- `r` bounds a start and all quotas, and is one of them.
abbrev pub Bounds : ℤ → List MatchedClient → ℤ → Type 0
Bounds start ms r =
    (start ≤ℤ r)
    × All (λ m. m.client.total_gb ≤ℤ r) ms
    × ((r ≡ start) ⊎ ((m : MatchedClient) × In m ms × (r ≡ m.client.total_gb)))

Bounds-cons :
    (start : ℤ) (m : MatchedClient) (ms : List MatchedClient) (r : ℤ) (more : Bool)
    → ltb_ℤ start m.client.total_gb ≡ more
    → Bounds (if more then m.client.total_gb else start) ms r
    → Bounds start (m ∷ ms) r
Bounds-cons start m ms r true e (low, all, inl own) =
    (ground arith, (low, all), inr (m, here refl, own))
Bounds-cons start m ms r true e (low, all, inr (k, at_k, same)) =
    (ground arith, (low, all), inr (k, there at_k, same))
Bounds-cons start m ms r false e (low, all, inl own) = (low, (ground arith, all), inl own)
Bounds-cons start m ms r false e (low, all, inr (k, at_k, same)) =
    (low, (ground arith, all), inr (k, there at_k, same))

sum_matches-total :
    (s : Sums) (ms : List MatchedClient) → Bounds s.total ms (sum_matches s ms).total
unfolding sum_matches
sum_matches-total s [] = (omega arith, tt, inl refl)
sum_matches-total s (m ∷ ms) =
    Bounds-cons s.total m ms _ _ refl (sum_matches-total (add_match s m) ms)

-- The traffic of a subscription is the exact sum of its clients' counters while the sums fit int64,
-- and its quota is the largest of the clients' quotas, or 0 where none is above 0.
pub summarise-traffic :
    (now : ℕ) (sub_id : String) (ms : List MatchedClient) (links : List String)
    → Fits (λ m. m.client.up) (pos 0) ms
    → Fits (λ m. m.client.down) (pos 0) ms
    → ((summarise now sub_id ms links).traffic.up ≡ total_of (λ m. m.client.up) (pos 0) ms)
      × ((summarise now sub_id ms links).traffic.down ≡ total_of (λ m. m.client.down) (pos 0) ms)
      × Bounds (pos 0) ms (summarise now sub_id ms links).traffic.total
unfolding summarise
summarise-traffic now sub_id ms links up down =
    (sum_matches-up no_sums ms up, sum_matches-down no_sums ms down, sum_matches-total no_sums ms)
