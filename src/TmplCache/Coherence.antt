-- ===== src/TmplCache/Coherence.antt =====
-- A template that is served from the cache is the one that the table has.
use x_ui_subpage.Prelude.{
  ℕ, ◌≡◌, refl, sym, subst, ◌∙◌, ap, inl, inr, String, eq_iff, Option, none, some, List, [], ◌∷◌,
  eqb, eqb_iff, Bool-cases, wrap, Result, ok, err, Fault, first, first-eq-some, upsert-In, In,
  concat,
}
use x_ui_subpage.Templates.{Row}
use x_ui_subpage.TmplCache.{
  Entry, Cache, Fetched, fetch, has_key, hit, entry_of, stored, key_of, looked_up, resolved, get,
}
use x_ui_subpage.TmplCache.Versions.{IsVersioned, FetchesVersion, fetch-FetchesVersion}

module _ {ℓ} {T : Type ℓ} where
  -- Each kept value is what the content of its version compiles to.
  abbrev pub IsCoherent : (String → ℕ → String) → Cache T → Type ℓ
  IsCoherent versions c =
      (e : Entry T)
      → In e c.entries
      → c.parse (concat (c.format ∷ "/" ∷ e.key ∷ [])) (versions e.key e.updated_at) ≡ ok e.value

  -- A call without anything kept.
  abbrev pub emptied : Cache T → Cache T
  emptied c = record c { entries = [] }

  some-injective : {a b : T} → some a ≡ some b → a ≡ b
  some-injective e = cc

  hit-some :
      (stamp : ℕ) (key : String) (entries : List (Entry T)) (value : T)
      → hit stamp (first (has_key key) entries) ≡ some value
      → (e : Entry T) × In e entries × (e.key ≡ key) × (e.updated_at ≡ stamp) × (e.value ≡ value)
  hit-some stamp key entries value h = by_entry (first (has_key key) entries) refl h
    where
      by_entry :
          (o : Option (Entry T))
          → first (has_key key) entries ≡ o
          → hit stamp o ≡ some value
          → (e : Entry T) × In e entries
            × (e.key ≡ key)
            × (e.updated_at ≡ stamp)
            × (e.value ≡ value)
      by_entry none q e = cc
      by_entry (some x) q e = elim (Bool-cases (eqb x.updated_at stamp)) [
        | inl same ↦
            let (m, at_key) = first-eq-some (has_key key) entries x q in
            (
              x,
              m,
              (eq_iff x.key key).0 at_key,
              (eqb_iff x.updated_at stamp).0 same,
              some-injective (rw same at e),
            )
        | inr differs ↦ cc (rw differs at e)
      ]

  -- A call on a coherent cache gives what a call without anything kept gives, and leaves a coherent
  -- cache.
  module _ (versions : String → ℕ → String) (c : Cache T) (coherent : IsCoherent versions c) where
    hit-parsed :
        (key content : String) (stamp : ℕ) (value : T)
        → content ≡ versions key stamp
        → hit stamp (first (has_key key) c.entries) ≡ some value
        → c.parse (concat (c.format ∷ "/" ∷ key ∷ [])) content ≡ ok value
    hit-parsed key content stamp value v h =
        let (e, m, at_key, at_stamp, same) = hit-some stamp key c.entries value h in
        ap (c.parse (concat (c.format ∷ "/" ∷ key ∷ []))) v
        ∙ ap (λ k. c.parse (concat (c.format ∷ "/" ∷ k ∷ [])) (versions k stamp)) (sym at_key)
        ∙ ap (λ s. c.parse (concat (c.format ∷ "/" ∷ e.key ∷ [])) (versions e.key s)) (sym at_stamp)
        ∙ coherent e m
        ∙ ap ok same

    stored-IsCoherent :
        (key content : String) (stamp : ℕ) (r : Result T)
        → content ≡ versions key stamp
        → c.parse (concat (c.format ∷ "/" ∷ key ∷ [])) content ≡ r
        → IsCoherent versions (stored c key stamp r).0
    stored-IsCoherent key content stamp (err x) v parsed e m = coherent e m
    stored-IsCoherent key content stamp (ok value) v parsed e m =
        elim (upsert-In (has_key key) (λ _. entry_of key value stamp) (entry_of key value stamp) e
          c.entries m) [
            | inl old ↦ coherent e old
            | inr (inl fresh) ↦ at_new e fresh
            | inr (inr (_, _, fresh)) ↦ at_new e fresh
          ]
      where
        at_new :
            (e : Entry T)
            → e ≡ entry_of key value stamp
            → c.parse (concat (c.format ∷ "/" ∷ e.key ∷ [])) (versions e.key e.updated_at)
              ≡ ok e.value
        at_new e fresh =
            subst
              (λ (x : Entry T).
                c.parse (concat (c.format ∷ "/" ∷ x.key ∷ [])) (versions x.key x.updated_at)
                ≡ ok x.value)
              (sym fresh) (ap (c.parse (concat (c.format ∷ "/" ∷ key ∷ []))) (sym v) ∙ parsed)

    stored-result :
        (d : Cache T) (key : String) (stamp : ℕ) (r : Result T)
        → c.format ≡ d.format
        → (stored c key stamp r).1 ≡ (stored d key stamp r).1
    stored-result d key stamp (ok value) e = refl
    stored-result d key stamp (err x) e =
        ap (λ f. err (wrap (concat ("tmplcache: parse " ∷ f ∷ "/" ∷ key ∷ [])) x)) e

    resolved-IsCoherent :
        (protocol : String) (r : Result Fetched)
        → FetchesVersion versions protocol r
        → IsCoherent versions (resolved c protocol r).0
          × ((resolved c protocol r).1 ≡ (resolved (emptied c) protocol r).1)
    unfolding first
    resolved-IsCoherent protocol (err e) v = (coherent, refl)
    resolved-IsCoherent protocol (ok row) v =
        by_hit (hit row.updated_at (first (has_key key) c.entries)) refl
      where
        key : String
        key = key_of row.profile protocol

        by_hit :
            (o : Option T)
            → hit row.updated_at (first (has_key key) c.entries) ≡ o
            → IsCoherent versions (looked_up c key row o).0
              × ((looked_up c key row o).1 ≡ (resolved (emptied c) protocol (ok row)).1)
        by_hit none q = (
          stored-IsCoherent key row.content row.updated_at
              (c.parse (concat (c.format ∷ "/" ∷ key ∷ [])) row.content) v refl,
          stored-result (emptied c) key row.updated_at
              (c.parse (concat (c.format ∷ "/" ∷ key ∷ [])) row.content) refl,
        )
        by_hit (some value) q = (
          coherent,
          sym (
              ap (λ r. (stored (emptied c) key row.updated_at r).1)
                (hit-parsed key row.content row.updated_at value v q)),
        )

  -- The caches that calls lead to, on tables whose stamps stand for one content each, with whatever
  -- failures of the engine.
  pub data Served (versions : String → ℕ → String) : Cache T → Type ℓ where
    opened :
        (format : String) (parse : String → String → Result T)
        → Served versions (record { format = format; parse = parse; entries = [] })
    called :
        {c : Cache T} (fault default_fault : Fault) (profile protocol : String) (t : List Row)
        → Served versions c
        → IsVersioned versions c.format t
        → Served versions (get fault default_fault profile protocol t c).0

  get-IsCoherent :
      (versions : String → ℕ → String) (fault default_fault : Fault) (profile protocol : String)
      (t : List Row) (c : Cache T)
      → IsCoherent versions c
      → IsVersioned versions c.format t
      → IsCoherent versions (get fault default_fault profile protocol t c).0
        × ((get fault default_fault profile protocol t c).1
            ≡ (get fault default_fault profile protocol t (emptied c)).1)
  unfolding get
  get-IsCoherent versions fault default_fault profile protocol t c coherent h =
      resolved-IsCoherent versions c coherent protocol
        (fetch fault default_fault c.format profile protocol t)
        (fetch-FetchesVersion versions fault default_fault c.format profile protocol t h)

  Served-IsCoherent :
      (versions : String → ℕ → String) (c : Cache T) → Served versions c → IsCoherent versions c
  Served-IsCoherent versions _ (opened format parse) = λ e m. elim m [ ]
  Served-IsCoherent versions _ (called {c} fault default_fault profile protocol t s h) =
      (get-IsCoherent versions fault default_fault profile protocol t c
        (Served-IsCoherent versions c s) h).0

  -- After any calls, on tables in which the stamp of a row stands for one content and with whatever
  -- failures of the engine, a call on such a table gives what it gives when nothing is kept.
  pub get-Served :
      (versions : String → ℕ → String) (fault default_fault : Fault) (profile protocol : String)
      (t : List Row) (c : Cache T)
      → Served versions c
      → IsVersioned versions c.format t
      → (get fault default_fault profile protocol t c).1
        ≡ (get fault default_fault profile protocol t (emptied c)).1
  get-Served versions fault default_fault profile protocol t c s h =
      (get-IsCoherent versions fault default_fault profile protocol t c
        (Served-IsCoherent versions c s) h).1
