-- ===== src/TmplCache/Versions.antt =====
-- A query for a template gives the content that the stamp of its row stands for.
use x_ui_subpage.Prelude.{
  ℕ, ◌≡◌, refl, ◌∙◌, ap, inl, inr, String, Option, none, some, List, Bool-cases, ◌==◌, Error,
  is_no_rows, Result, ok, err, Fault, first, first-eq-some, All, All-In,
}
use x_ui_subpage.Templates.{Row, is_at}
use x_ui_subpage.Templates.Edits.{is_at-eq}
use x_ui_subpage.TmplCache.{
  default_profile, Fetched, scanned, query_row, after_default, after_first, no_fallback, fetch,
  key_of,
}

-- Each stamp of a row stands for one content: `versions` says which.
abbrev pub IsVersioned : (String → ℕ → String) → String → List Row → Type 0
IsVersioned versions format =
    All (λ r. r.format ≡ format → r.content ≡ versions (key_of r.profile r.protocol) r.updated_at)

abbrev pub FetchesVersion : (String → ℕ → String) → String → Result Fetched → Type 0
FetchesVersion versions protocol (err e) = Unit
FetchesVersion versions protocol (ok row) =
    row.content ≡ versions (key_of row.profile protocol) row.updated_at

query_row-FetchesVersion :
    (versions : String → ℕ → String) (fault : Fault) (format profile protocol : String)
    (t : List Row)
    → IsVersioned versions format t
    → FetchesVersion versions protocol (query_row fault format profile protocol t)
unfolding query_row
query_row-FetchesVersion versions (some cause) format profile protocol t h = tt
query_row-FetchesVersion versions none format profile protocol t h =
    by_row (first (is_at format profile protocol) t) refl
  where
    by_row :
        (o : Option Row)
        → first (is_at format profile protocol) t ≡ o
        → FetchesVersion versions protocol (scanned none profile o)
    by_row none e = tt
    by_row (some r) e =
        let (m, hits) = first-eq-some (is_at format profile protocol) t r e in
        let (at_format, at_profile, at_protocol) = is_at-eq format profile protocol r hits in
        All-In _ r t h m at_format
        ∙ ap (λ p. versions (key_of p r.protocol) r.updated_at) at_profile
        ∙ ap (λ p. versions (key_of profile p) r.updated_at) at_protocol

pub fetch-FetchesVersion :
    (versions : String → ℕ → String) (fault default_fault : Fault)
    (format profile protocol : String) (t : List Row)
    → IsVersioned versions format t
    → FetchesVersion versions protocol (fetch fault default_fault format profile protocol t)
unfolding fetch
fetch-FetchesVersion versions fault default_fault format profile protocol t h =
    by_first (query_row fault format profile protocol t)
      (query_row-FetchesVersion versions fault format profile protocol t h)
  where
    second : Result Fetched
    second = query_row default_fault format default_profile protocol t

    by_second :
        (r : Result Fetched) (e : Error)
        → FetchesVersion versions protocol r
        → FetchesVersion versions protocol (after_default e r)
    by_second (ok row) e h = h
    by_second (err x) e h = elim (Bool-cases (is_no_rows x)) [ inl c ↦ rw c tt | inr c ↦ rw c tt ]

    by_first :
        (r : Result Fetched)
        → FetchesVersion versions protocol r
        → FetchesVersion versions protocol (after_first format profile r second)
    by_first (ok row) v = v
    by_first (err x) v = elim (Bool-cases (is_no_rows x)) [
      | inr c ↦ rw c tt
      | inl c ↦ elim (Bool-cases (profile == default_profile)) [
        | inl d ↦ rw (c, d) tt
        | inr d ↦
            rw (c, d)
              (by_second second (no_fallback format profile) (
                query_row-FetchesVersion versions default_fault format default_profile protocol t
                  h))
      ]
    ]
