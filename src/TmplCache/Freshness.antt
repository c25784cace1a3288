-- ===== src/TmplCache/Freshness.antt =====
-- An edit of the templates takes effect at the next call.
use x_ui_subpage.Prelude.{
  refl, in_context, Option, some, err, Result, if◌then◌else◌, Bool-cases, inl, inr, ℕ, ◌≡◌, ◌∙◌, ap,
  String, none, List, [], ◌∷◌, ◌==◌, is_no_rows, ok, first, concat,
}
use x_ui_subpage.Templates.{Row, is_at, put, delete}
use x_ui_subpage.Templates.Edits.{put-row, delete-row, delete-row_other}
use x_ui_subpage.TmplCache.{
  no_default, default_profile, Cache, Fetched, scanned, query_row, after_default, after_first,
  no_fallback, fetch, stored, key_of, resolved, get,
}
use x_ui_subpage.TmplCache.Versions.{IsVersioned}
use x_ui_subpage.TmplCache.Coherence.{Served, emptied, get-Served}

module _ {ℓ} {T : Type ℓ} where
  -- What a text compiles to as the template of a profile.
  abbrev pub compiled : Cache T → String → String → String → Result T
  compiled c profile protocol content =
      in_context (concat ("tmplcache: parse " ∷ c.format ∷ "/" ∷ key_of profile protocol ∷ []))
        (c.parse (concat (c.format ∷ "/" ∷ key_of profile protocol ∷ [])) content)

  -- What a profile without a template of its own gets, by the default profile's row.
  abbrev pub of_default : Cache T → String → String → Option Row → Result T
  of_default c profile protocol none = err (no_fallback c.format profile)
  of_default c profile protocol (some r) = compiled c default_profile protocol r.content

  stored-in_context :
      (c : Cache T) (key : String) (stamp : ℕ) (r : Result T)
      → (stored c key stamp r).1
        ≡ in_context (concat ("tmplcache: parse " ∷ c.format ∷ "/" ∷ key ∷ [])) r
  stored-in_context c key stamp (ok value) = refl
  stored-in_context c key stamp (err e) = refl

  uncached_row :
      (c : Cache T) (protocol : String) (row : Fetched)
      → (resolved (emptied c) protocol (ok row)).1
        ≡ in_context
            (concat ("tmplcache: parse " ∷ c.format ∷ "/" ∷ key_of row.profile protocol ∷ []))
            (c.parse (concat (c.format ∷ "/" ∷ key_of row.profile protocol ∷ [])) row.content)
  unfolding first
  uncached_row c protocol row =
      stored-in_context (emptied c) (key_of row.profile protocol) row.updated_at
        (c.parse (concat (c.format ∷ "/" ∷ key_of row.profile protocol ∷ [])) row.content)

  uncached_default :
      (c : Cache T) (profile protocol : String) (o : Option Row)
      → (resolved
          (emptied c)
          protocol
          (after_default (no_fallback c.format profile) (scanned none default_profile o))).1
        ≡ of_default c profile protocol o
  unfolding is_no_rows
  uncached_default c profile protocol none = refl
  uncached_default c profile protocol (some r) =
      uncached_row c protocol
        (record { content = r.content; updated_at = r.updated_at; profile = default_profile })

  -- The call that finds no row of its profile.
  uncached_absent :
      (c : Cache T) (profile protocol : String) (o : Option Row)
      → (resolved (emptied c) protocol (
          after_first c.format profile
            (scanned none profile none)
            (scanned none default_profile o))).1
        ≡ (if profile == default_profile
            then err (no_default c.format profile)
            else of_default c profile protocol o)
  unfolding is_no_rows
  uncached_absent c profile protocol o = elim (Bool-cases (profile == default_profile)) [
    | inl own ↦ rw own refl
    | inr other ↦ rw other (uncached_default c profile protocol o)
  ]

  -- After any calls as above, on tables whose stamps stand for one content each, a Put or a Delete
  -- of a template that does not fail takes effect at once, whatever the cache keeps: the next call
  -- for its profile and protocol for which the engine does not fail gives what the new content
  -- compiles to, and after a Delete what the default profile's row compiles to, or reports that there
  -- is no such row or that the deleted row was that one.
  pub edit-get :
      (versions : String → ℕ → String) (now : ℕ) (profile protocol content : String) (t : List Row)
      (c : Cache T)
      → Served versions c
      → IsVersioned versions c.format (put none now c.format profile protocol content t).0
      → IsVersioned versions c.format (delete none c.format profile protocol t).0
      → ((get none none profile protocol (put none now c.format profile protocol content t).0 c).1
          ≡ compiled c profile protocol content)
        × ((get none none profile protocol (delete none c.format profile protocol t).0 c).1 ≡ (
            if profile == default_profile
            then err (no_default c.format profile)
            else of_default c profile protocol (first (is_at c.format default_profile protocol) t)))
  unfolding get fetch query_row
  edit-get versions now profile protocol content t c s put_versions delete_versions =
      let (r, found, same, _) = put-row now c.format profile protocol content t in
      let after_put = (put none now c.format profile protocol content t).0 in
      let after_delete = (delete none c.format profile protocol t).0 in
      (
        get-Served versions none none profile protocol after_put c s put_versions
            ∙ ap
                (λ o.
                  (resolved (emptied c) protocol (
                    after_first c.format profile (scanned none profile o)
                      (query_row none c.format default_profile protocol after_put))).1)
                found
            ∙ uncached_row c protocol
                (record { content = r.content; updated_at = r.updated_at; profile = profile })
            ∙ ap (compiled c profile protocol) same,
        get-Served versions none none profile protocol after_delete c s delete_versions
            ∙ ap
                (λ o.
                  (resolved (emptied c) protocol (
                    after_first c.format profile (scanned none profile o)
                      (query_row none c.format default_profile protocol after_delete))).1)
                (delete-row c.format profile protocol t)
            ∙ uncached_absent c profile protocol
                (first (is_at c.format default_profile protocol) after_delete)
            ∙ default_row t after_delete refl,
      )
    where
      default_row :
          (t t' : List Row)
          → (delete none c.format profile protocol t).0 ≡ t'
          → (if profile == default_profile
              then err (no_default c.format profile)
              else of_default c profile protocol
                  (first (is_at c.format default_profile protocol) t'))
            ≡ (if profile == default_profile
                then err (no_default c.format profile)
                else of_default c profile protocol
                    (first (is_at c.format default_profile protocol) t))
      default_row t t' e = elim (Bool-cases (profile == default_profile)) [
        | inl own ↦ rw own refl
        | inr other ↦
            rw (other, ← e)
              (ap (of_default c profile protocol)
                (delete-row_other c.format profile default_profile protocol t other))
      ]
