-- ===== src/Xui/Dynamic/Coherence.antt =====
-- The client in use is the one that the settings make.
use x_ui_subpage.Prelude.{
  ℕ, ◌≡◌, refl, ap, sym, ◌∙◌, ◌↔◌, Option, none, some, inl, inr, eqb, eqb_iff, Result, ok, err,
  Bool-cases,
}
use x_ui_subpage.Xui.Client.{Client}
use x_ui_subpage.Xui.Dynamic.{
  DynamicClient, Settings, stamp, fresh, rebuild, locked, unlocked, client,
}

-- Settings with one stamp make one client, which is the one that is kept with that stamp.
abbrev pub IsCoherent : (ℕ → Result Client) → DynamicClient → Type 0
IsCoherent made d = (c : Client) → d.current ≡ some c → made d.loaded_at ≡ ok c

-- The answer is the client of the stamp, and the state stays coherent.
abbrev Agrees : (ℕ → Result Client) → ℕ → DynamicClient × Result Client → Type 0
Agrees made t (d, r) = ((c : Client) → (r ≡ ok c) ↔ (made t ≡ ok c)) × IsCoherent made d

module _ (made : ℕ → Result Client) (t : ℕ) where
  fresh_parts :
      (current : Option Client) (at : ℕ) (c : Client)
      → fresh t (record { current = current; loaded_at = at }) ≡ some c
      → (current ≡ some c) × (t ≡ at)
  fresh_parts none at c e = cc
  fresh_parts (some x) at c e = elim (Bool-cases (eqb t at)) [
    | inl same ↦ (rw same at e, (eqb_iff t at).0 same)
    | inr stale ↦ let impossible = rw stale at e in cc
  ]

  kept_is_made :
      (d : DynamicClient) (c : Client) → IsCoherent made d → fresh t d ≡ some c → made t ≡ ok c
  kept_is_made d c coherent e =
      let (held, same) = fresh_parts d.current d.loaded_at c e in ap made same ∙ coherent c held

  rebuild-Agrees :
      (d : DynamicClient) (load : Result Client)
      → load ≡ made t
      → IsCoherent made d
      → Agrees made t (rebuild t d load)
  rebuild-Agrees d (err x) e coherent = ((λ c. ((λ h. cc), (λ h. cc))), coherent)
  rebuild-Agrees d (ok x) e coherent =
      ((λ c. ((λ h. sym e ∙ h), (λ h. e ∙ h))), (λ c h. sym e ∙ cc))

  -- A client that was found fresh, or none.
  answer-Agrees :
      (o : Option Client) (d : DynamicClient) (r : DynamicClient × Result Client)
      → ((c : Client) → o ≡ some c → made t ≡ ok c)
      → IsCoherent made d
      → ((c : Client) → o ≡ some c → r ≡ (d, ok c))
      → (o ≡ none → Agrees made t r)
      → Agrees made t r
  answer-Agrees none d r right coherent found missing = missing refl
  answer-Agrees (some c) d r right coherent found missing =
      rw (found c refl) ((λ x. ((λ h. right c refl ∙ h), (λ h. sym (right c refl) ∙ h))), coherent)

  locked-Agrees :
      (d : DynamicClient) (load : Result Client)
      → load ≡ made t
      → IsCoherent made d
      → Agrees made t (locked t (fresh t d) d load)
  locked-Agrees d load e coherent =
      answer-Agrees (fresh t d) d (locked t (fresh t d) d load) (λ c. kept_is_made d c coherent)
        coherent (λ c h. rw h refl) (λ h. rw h (rebuild-Agrees d load e coherent))

  unlocked-Agrees :
      (seen d : DynamicClient) (load : Result Client)
      → load ≡ made t
      → IsCoherent made seen
      → IsCoherent made d
      → Agrees made t (unlocked t (fresh t seen) d load)
  unlocked-Agrees seen d load e coherent coherent' =
      answer-Agrees (fresh t seen) d (unlocked t (fresh t seen) d load)
        (λ c. kept_is_made seen c coherent) coherent' (λ c h. rw h refl)
        (λ h. rw h (locked-Agrees d load e coherent'))

-- Where each stamp of the settings row stands for one content, and the query for the stamp does not
-- fail, a call gets a client exactly when the settings make one, namely that one, and the state
-- stays coherent: the kept client is always the one of the stamp kept with it. The state may have
-- changed, coherently, between the read lock and the write lock.
pub client-IsCoherent :
    (made : ℕ → Result Client) (s : Settings) (seen d : DynamicClient)
    → s.fault ≡ none
    → s.load ≡ made (stamp s.updated_at)
    → IsCoherent made seen
    → IsCoherent made d
    → ((c : Client) → ((client s seen d).1 ≡ ok c) ↔ (made (stamp s.updated_at) ≡ ok c))
      × IsCoherent made (client s seen d).0
unfolding client
client-IsCoherent made s seen d quiet e coherent coherent' =
    rw quiet (unlocked-Agrees made (stamp s.updated_at) seen d s.load e coherent coherent')
