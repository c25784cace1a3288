-- ===== src/Xui/Parse/Matches.antt =====
-- Which clients a subscription token gets.
use x_ui_subpage.Prelude.{
  String, ◌≡◌, refl, sym, Bool, true, false, ◌&&◌, not, ◌==◌, Option, none, some, List, [], ◌∷◌,
  ◌++◌, map, if◌then◌else◌, Result, ok, err, bind-eq-ok, ok-injective, select, subst,
}
use x_ui_subpage.Xui.Models.{Inbound, EmbeddedClient, HostGroup}
use x_ui_subpage.Domain.{MatchedClient, StreamSettings}
use x_ui_subpage.Xui.Parse.{
  Std, wrap_err, decode_clients, decode_stream_settings, account_of, stats_by_email, is_supported,
  apply_host, select_host_for_inbound, matched_client, match_clients, match_inbound,
  matched_clients_by_sub_id,
}

-- An inbound and one of its clients, as a subscription entry shows them.
abbrev pub Shows : Inbound → EmbeddedClient → MatchedClient → Type 0
Shows ib c mc =
    (mc.inbound_id ≡ ib.id)
    × (mc.protocol ≡ ib.protocol)
    × (mc.tag ≡ ib.tag)
    × (mc.client ≡ account_of c (stats_by_email ib.client_stats c.email))

-- The entries are exactly the expected clients, in order.
abbrev pub AllShow : List (Inbound × EmbeddedClient) → List MatchedClient → Type 0
AllShow [] [] = Unit
AllShow ((ib, c) ∷ expected) (mc ∷ out) = Shows ib c mc × AllShow expected out
AllShow _ _ = ⊥

AllShow-append :
    (xs ys : List (Inbound × EmbeddedClient)) (out out' : List MatchedClient)
    → AllShow xs out
    → AllShow ys out'
    → AllShow (xs ++ ys) (out ++ out')
AllShow-append [] ys [] out' h k = k
AllShow-append [] ys (m ∷ out) out' h k = absurd h
AllShow-append (x ∷ xs) ys [] out' h k = absurd h
AllShow-append (x ∷ xs) ys (m ∷ out) out' (p, h) k = (p, AllShow-append xs ys out out' h k)

wrap_err-eq-ok {ℓ} :
    {A : Type ℓ} (context : String) (r : Result A) {a : A} → wrap_err context r ≡ ok a → r ≡ ok a
wrap_err-eq-ok context (ok b) e = e
wrap_err-eq-ok context (err x) e = cc

-- The two guards of the loop.
gate-AllShow :
    (on supported : Bool) (r : Result (List MatchedClient)) (xs : List (Inbound × EmbeddedClient))
    (out : List MatchedClient)
    → (if not on then ok [] else if supported then r else ok []) ≡ ok out
    → (r ≡ ok out → AllShow xs out)
    → AllShow (if on && supported then xs else []) out
gate-AllShow true true r xs out e h = h e
gate-AllShow true false r xs out e h = subst (AllShow []) (ok-injective e) tt
gate-AllShow false _ r xs out e h = subst (AllShow []) (ok-injective e) tt

abbrev pub or_nil : Result (List EmbeddedClient) → List EmbeddedClient
or_nil (ok cs) = cs
or_nil (err _) = []

module _ (std : Std) where
  -- The clients of an inbound, or none where its settings do not decode.
  abbrev pub clients_of : Inbound → List EmbeddedClient
  clients_of ib = or_nil (decode_clients std ib.settings)

  -- The description: of each enabled inbound with a supported protocol, the clients with the token.
  abbrev pub expected : List Inbound → String → List (Inbound × EmbeddedClient)
  expected [] sub_id = []
  expected (ib ∷ inbounds) sub_id =
      (if ib.enable && is_supported ib.protocol
        then map (λ c. (ib, c)) (select (λ c. c.sub_id == sub_id) (clients_of ib))
        else [])
      ++ expected inbounds sub_id

  matched_client-Shows :
      (ib : Inbound) (fallback : String) (stream : StreamSettings) (host : Option HostGroup)
      (c : EmbeddedClient)
      → Shows ib c (matched_client std ib fallback stream host c)
  unfolding matched_client apply_host
  matched_client-Shows ib fallback stream none c = (refl, refl, refl, refl)
  matched_client-Shows ib fallback stream (some host) c = (refl, refl, refl, refl)

  map-AllShow :
      (ib : Inbound) (fallback : String) (stream : StreamSettings) (host : Option HostGroup)
      (cs : List EmbeddedClient)
      → AllShow (map (λ c. (ib, c)) cs) (map (matched_client std ib fallback stream host) cs)
  map-AllShow ib fallback stream host [] = tt
  map-AllShow ib fallback stream host (c ∷ cs) =
      (matched_client-Shows ib fallback stream host c, map-AllShow ib fallback stream host cs)

  match_clients-AllShow :
      (ib : Inbound) (groups : List HostGroup) (fallback : String) (cs : List EmbeddedClient)
      (out : List MatchedClient)
      → match_clients std ib groups fallback cs ≡ ok out
      → AllShow (map (λ c. (ib, c)) cs) out
  unfolding match_clients
  match_clients-AllShow ib groups fallback [] out e = subst (AllShow []) (ok-injective e) tt
  match_clients-AllShow ib groups fallback (c ∷ cs) out e =
      let (stream, _, same) =
        bind-eq-ok (wrap_err "inbound" (decode_stream_settings std ib.stream_settings)) _ e in
      subst (AllShow (map (λ x. (ib, x)) (c ∷ cs))) (ok-injective same)
        (map-AllShow ib fallback stream (select_host_for_inbound groups ib.id) (c ∷ cs))

  match_inbound-AllShow :
      (ib : Inbound) (groups : List HostGroup) (sub_id fallback : String) (out : List MatchedClient)
      → match_inbound std ib groups sub_id fallback ≡ ok out
      → AllShow
          (if ib.enable && is_supported ib.protocol
            then map (λ c. (ib, c)) (select (λ c. c.sub_id == sub_id) (clients_of ib))
            else [])
          out
  unfolding match_inbound
  match_inbound-AllShow ib groups sub_id fallback out e =
      gate-AllShow ib.enable (is_supported ib.protocol) _ _ out e λ found.
        let (clients, wrapped, matched) =
          bind-eq-ok (wrap_err "inbound" (decode_clients std ib.settings)) _ found in
        subst (λ r. AllShow (map (λ c. (ib, c)) (select (λ c. c.sub_id == sub_id) (or_nil r))) out)
          (sym (wrap_err-eq-ok "inbound" (decode_clients std ib.settings) wrapped))
          (match_clients-AllShow ib groups fallback (select (λ c. c.sub_id == sub_id) clients) out
            matched)

  -- When the scan succeeds, its entries are, in order and one for one, the clients that carry the
  -- token in an enabled inbound with a supported protocol. Each shows its inbound's id, tag and
  -- protocol, and the client's own account with the panel's traffic counters.
  pub matched_clients_by_sub_id-AllShow :
      (inbounds : List Inbound) (groups : List HostGroup) (sub_id fallback : String)
      (out : List MatchedClient)
      → matched_clients_by_sub_id std inbounds groups sub_id fallback ≡ ok out
      → AllShow (expected inbounds sub_id) out
  unfolding matched_clients_by_sub_id
  matched_clients_by_sub_id-AllShow [] groups sub_id fallback out e =
      subst (AllShow []) (ok-injective e) tt
  matched_clients_by_sub_id-AllShow (ib ∷ inbounds) groups sub_id fallback out e =
      let (here, found, e) = bind-eq-ok (match_inbound std ib groups sub_id fallback) _ e in
      let (rest, later, e) =
        bind-eq-ok (matched_clients_by_sub_id std inbounds groups sub_id fallback) _ e in
      subst (AllShow (expected (ib ∷ inbounds) sub_id)) (ok-injective e) (
        AllShow-append _ (expected inbounds sub_id) here rest
          (match_inbound-AllShow ib groups sub_id fallback here found)
          (matched_clients_by_sub_id-AllShow inbounds groups sub_id fallback rest later))
