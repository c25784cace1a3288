-- ===== src/Resolver/Failures.antt =====
-- Which failures end a resolve, and which it survives.
use x_ui_subpage.Prelude.{
  ℕ, ◌≡◌, refl, String, List, [], ◌∷◌, arith, not_found, Result, ok, err, ◌↔◌,
}
use x_ui_subpage.Domain.{MatchedClient}
use x_ui_subpage.Xui.Models.{Inbound, EmbeddedClient, HostGroup}
use x_ui_subpage.Xui.Parse.{Std, matched_clients_by_sub_id}
use x_ui_subpage.Xui.Parse.Matches.{expected, AllShow, matched_clients_by_sub_id-AllShow}
use x_ui_subpage.Resolver.{
  Lister, summarise, with_links, with_matches, hosts_or_none, with_inbounds, resolve,
}

AllShow-nil_iff :
    (xs : List (Inbound × EmbeddedClient)) (out : List MatchedClient)
    → AllShow xs out
    → (out ≡ []) ↔ (xs ≡ [])
AllShow-nil_iff [] [] h = ((λ _. refl), (λ _. refl))
AllShow-nil_iff [] (m ∷ out) h = absurd h
AllShow-nil_iff (x ∷ xs) [] h = absurd h
AllShow-nil_iff (x ∷ xs) (m ∷ out) h = ((λ e. cc e), (λ e. cc e))

module _ {U : Type 0} (std : Std) (lister : Lister U) (fallback_host : String) (now : ℕ) where
  with_links-ne-not_found :
      (sub_id : String) (matches : List MatchedClient) (answer : U × Result (List String))
      → (with_links std lister fallback_host now sub_id matches answer).1 ≡ err not_found
      → ⊥
  unfolding with_links
  with_links-ne-not_found sub_id matches (u, ok links) e = cc e
  with_links-ne-not_found sub_id matches (u, err x) e = cc e

  with_matches-not_found_iff :
      (sub_id : String) (u : U) (matches : List MatchedClient)
      → ((with_matches std lister fallback_host now sub_id u (ok matches)).1 ≡ err not_found)
        ↔ (matches ≡ [])
  unfolding with_matches
  with_matches-not_found_iff sub_id u [] = ((λ _. refl), (λ _. refl))
  with_matches-not_found_iff sub_id u (m ∷ matches) =
      ((λ e. absurd (with_links-ne-not_found sub_id (m ∷ matches) _ e)), (λ e. cc e))

  with_matches-ok :
      (sub_id : String) (u : U) (matches : List MatchedClient) (links : List String)
      → (matches ≡ [] → ⊥)
      → (lister.get_sub_links sub_id u).1 ≡ ok links
      → (with_matches std lister fallback_host now sub_id u (ok matches)).1
        ≡ ok (summarise now sub_id matches links)
  unfolding with_matches with_links
  with_matches-ok sub_id u [] links some_match h = absurd (some_match refl)
  with_matches-ok sub_id u (m ∷ matches) links some_match h = ground arith

  resolve-eq :
      (sub_id : String) (u : U) (inbounds : List Inbound) (hosts : Result (List HostGroup))
      (matches : List MatchedClient)
      → (lister.list_inbounds u).1 ≡ ok inbounds
      → (lister.list_hosts (lister.list_inbounds u).0).1 ≡ hosts
      → matched_clients_by_sub_id std inbounds (hosts_or_none hosts) sub_id fallback_host
        ≡ ok matches
      → resolve std lister fallback_host now sub_id u
        ≡ with_matches std lister fallback_host now sub_id
            (lister.list_hosts (lister.list_inbounds u).0).0
            (ok matches)
  unfolding resolve with_inbounds
  resolve-eq sub_id u inbounds hosts matches listed hosted matched = ground arith

  -- Once the inbounds are listed and decode, a resolve reports "not found" exactly when no client
  -- of an enabled inbound with a supported protocol carries the token, whatever became of the
  -- hosts and of the links. When there is such a client and the links are served, the answer is
  -- the summary of the matches and those links.
  pub resolve_lem :
      (sub_id : String) (u : U) (inbounds : List Inbound) (hosts : Result (List HostGroup))
      (matches : List MatchedClient) (links : List String)
      → (lister.list_inbounds u).1 ≡ ok inbounds
      → (lister.list_hosts (lister.list_inbounds u).0).1 ≡ hosts
      → matched_clients_by_sub_id std inbounds (hosts_or_none hosts) sub_id fallback_host
        ≡ ok matches
      → (((resolve std lister fallback_host now sub_id u).1 ≡ err not_found)
          ↔ (expected std inbounds sub_id ≡ []))
        × ((expected std inbounds sub_id ≡ [] → ⊥)
            → (lister.get_sub_links sub_id (lister.list_hosts (lister.list_inbounds u).0).0).1
              ≡ ok links
            → (resolve std lister fallback_host now sub_id u).1
              ≡ ok (summarise now sub_id matches links))
  resolve_lem sub_id u inbounds hosts matches links listed hosted matched =
      let u' = (lister.list_hosts (lister.list_inbounds u).0).0 in
      let same = resolve-eq sub_id u inbounds hosts matches listed hosted matched in
      let nil =
        AllShow-nil_iff (expected std inbounds sub_id) matches
          (matched_clients_by_sub_id-AllShow std inbounds _ sub_id fallback_host matches matched) in
      let found = with_matches-not_found_iff sub_id u' matches in
      rw same (
        ((λ e. nil.0 (found.0 e)), (λ e. found.1 (nil.1 e))),
        (λ some_expected. with_matches-ok sub_id u' matches links (λ e. some_expected (nil.0 e))),
      )
