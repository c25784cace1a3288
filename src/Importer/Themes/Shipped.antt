-- ===== src/Importer/Themes/Shipped.antt =====
-- What the table of a theme's files holds after its import.
use x_ui_subpage.Prelude.{
  in_context-eq-ok, ℕ, suc, ◌≡◌, refl, sym, ap, ◌∙◌, subst, inl, inr, String, Bool, true, false,
  Bool-cases, Option, none, some, List, [], ◌∷◌, ◌++◌, if◌then◌else◌, eqb, ◌==◌, eq_iff, arith,
  Error, not_found, Result, ok, err, bind-eq-ok, ok-injective, commit-eq-ok, call, in_context,
  Fault, Faults, first, affected, delete_where, first-append_none, first-append_other, first-one,
  first-delete_where_other,
}
use x_ui_subpage.Themes.{
  Tables, FileRow, Meta, Json, is_file, is_of, file_row, get_file, scanned_file,
}
use x_ui_subpage.Importer.{commit_error}
use x_ui_subpage.Importer.Themes.{
  Visit, broken, directory, file, insert_file, insert_read, visit, walk, theme_tx, ThemeDir,
  import_one_theme,
}

-- The content that one visit ships under a path.
abbrev pub ships : String → Visit → Option String
ships p (file (ok path) (ok content)) =
    if path == "theme.json" then none else if path == p then some content else none
ships p _ = none

abbrev pub or_next : Option String → Option String → Option String
or_next (some s) o = some s
or_next none o = o

-- The content that a directory ships under a path, where theme.json is no file of the theme.
abbrev pub shipped : String → List Visit → Option String
shipped p [] = none
shipped p (v ∷ visits) = or_next (ships p v) (shipped p visits)

abbrev pub content_of : Option FileRow → Option String
content_of none = none
content_of (some r) = some r.content

or_next_assoc : (a b c : Option String) → or_next (or_next a b) c ≡ or_next a (or_next b c)
or_next_assoc (some s) b c = refl
or_next_assoc none b c = refl

or_next-none : (a : Option String) → a ≡ or_next a none
or_next-none (some s) = refl
or_next-none none = refl

-- No row is affected, so none is found.
first-unaffected :
    (q : FileRow → Bool) (files : List FileRow) → affected q files ≡ 0 → first q files ≡ none
unfolding first affected
first-unaffected q [] e = refl
first-unaffected q (r ∷ files) e = ground (arith, first-unaffected q files)

insert_file-appends :
    (fault : Fault) (r : FileRow) (files files' : List FileRow)
    → insert_file fault r files ≡ ok files'
    → (affected (is_file r.theme_slug r.path) files ≡ 0) × (files ++ r ∷ [] ≡ files')
insert_file-appends (some cause) r files files' e = absurd (refused e)
  where
    refused : {x : Error} → err x ≡ ok files' → ⊥
    refused q = cc
insert_file-appends none r files files' e =
    elim (Bool-cases (eqb (affected (is_file r.theme_slug r.path) files) 0)) [
      | inl free ↦ (ground (arith, free), ok-injective (rw free at e))
      | inr taken ↦ absurd (refused (rw taken at e))
    ]
  where
    refused : {x : Error} → err x ≡ ok files' → ⊥
    refused q = cc

-- A file that is inserted is found under its path, and all other paths find what they found.
appended-content :
    (slug path content p : String) (now : ℕ) (files : List FileRow)
    → affected (is_file slug path) files ≡ 0
    → content_of (first (is_file slug p) (files ++ file_row slug path content now ∷ []))
      ≡ or_next
          (content_of (first (is_file slug p) files))
          (if path == p then some content else none)
appended-content slug path content p now files free = elim (Bool-cases (path == p)) [
  | inl here ↦
      let same : path ≡ p = ground (arith, eq_iff path p, here) in
      let hit : is_file slug p (file_row slug path content now) ≡ true =
        ground (arith, eq_iff slug slug, here) in
      let before : first (is_file slug p) files ≡ none =
        first-unaffected (is_file slug p) files
          (subst (λ x. affected (is_file slug x) files ≡ 0) same free) in
      ap content_of (
        first-append_none (is_file slug p) files (file_row slug path content now ∷ []) before
        ∙ first-one (is_file slug p) (file_row slug path content now) hit)
      ∙ rw (before, here) refl
  | inr there ↦
      let miss : is_file slug p (file_row slug path content now) ≡ false = ground (arith, there) in
      ap content_of
        (first-append_other (is_file slug p) files (file_row slug path content now) miss)
      ∙ rw there (or_next-none (content_of (first (is_file slug p) files)))
]

-- A theme's files gain what is shipped where they had nothing, and those of other themes stay.
abbrev Gains : String → (String → Option String) → List FileRow → List FileRow → Type 0
Gains slug what files files' =
    ((p : String)
      → content_of (first (is_file slug p) files')
        ≡ or_next (content_of (first (is_file slug p) files)) (what p))
    × ((slug' p : String)
        → slug == slug' ≡ false
        → first (is_file slug' p) files' ≡ first (is_file slug' p) files)

nothing-Gains :
    (slug : String) (files files' : List FileRow)
    → files ≡ files'
    → Gains slug (λ _. none) files files'
nothing-Gains slug files files' same =
    subst (Gains slug (λ _. none) files) same
      ((λ p. or_next-none (content_of (first (is_file slug p) files))), λ slug' p ne. refl)

failed : {A : Type 0} {x : Error} {a : A} → err x ≡ ok a → ⊥
failed q = cc

insert_read-Gains :
    (fault : Fault) (now : ℕ) (slug path content : String) (files files' : List FileRow)
    → insert_read fault now slug path (ok content) files ≡ ok files'
    → Gains slug (λ p. if path == p then some content else none) files files'
insert_read-Gains fault now slug path content files files' e =
    let r = file_row slug path content now in
    let (free, same) =
      insert_file-appends fault r files files' (in_context-eq-ok _ (insert_file fault r files) e) in
    subst (Gains slug (λ p. if path == p then some content else none) files) same (
      (λ p. appended-content slug path content p now files free),
      λ slug' p ne. first-append_other (is_file slug' p) files r (ground (arith, ne)),
    )

visit-Gains :
    (fault : Fault) (now : ℕ) (slug : String) (v : Visit) (files files' : List FileRow)
    → visit fault now slug v files ≡ ok files'
    → Gains slug (λ p. ships p v) files files'
visit-Gains fault now slug (broken x) files files' e = absurd (failed e)
visit-Gains fault now slug directory files files' e =
    nothing-Gains slug files files' (ok-injective e)
visit-Gains fault now slug (file (err x) content) files files' e = absurd (failed e)
visit-Gains fault now slug (file (ok path) content) files files' e =
    elim (Bool-cases (path == "theme.json")) [
      | inl meta ↦ of_meta content meta (ok-injective (rw meta at e))
      | inr other ↦ of_file content other (rw other at e)
    ]
  where
    of_meta :
        (c : Result String)
        → path == "theme.json" ≡ true
        → files ≡ files'
        → Gains slug (λ p. ships p (file (ok path) c)) files files'
    of_meta (ok bytes) meta same = rw meta (nothing-Gains slug files files' same)
    of_meta (err x) meta same = nothing-Gains slug files files' same

    of_file :
        (c : Result String)
        → path == "theme.json" ≡ false
        → insert_read fault now slug path c files ≡ ok files'
        → Gains slug (λ p. ships p (file (ok path) c)) files files'
    of_file (ok bytes) other e =
        rw other (insert_read-Gains fault now slug path bytes files files' e)
    of_file (err x) other e = absurd (failed e)

walk-Gains :
    (faults : Faults) (i now : ℕ) (slug : String) (visits : List Visit)
    (files files' : List FileRow)
    → walk faults i now slug visits files ≡ ok files'
    → Gains slug (λ p. shipped p visits) files files'
unfolding walk
walk-Gains faults i now slug [] files files' e = nothing-Gains slug files files' (ok-injective e)
walk-Gains faults i now slug (v ∷ visits) files files' e =
    let (files₁, visited, e₁) = bind-eq-ok (visit (faults i) now slug v files) _ e in
    let (gain, keep) = visit-Gains (faults i) now slug v files files₁ visited in
    let (gain', keep') = walk-Gains faults (suc i) now slug visits files₁ files' e₁ in
    (
      λ p.
          gain' p
          ∙ ap (λ o. or_next o (shipped p visits)) (gain p)
          ∙ or_next_assoc (content_of (first (is_file slug p) files)) (ships p v)
              (shipped p visits),
      λ slug' p ne. keep' slug' p ne ∙ keep slug' p ne,
    )

first-cleared :
    (slug p : String) (files : List FileRow)
    → first (is_file slug p) (delete_where (is_of slug) files) ≡ none
unfolding first delete_where
first-cleared slug p [] = refl
first-cleared slug p (r ∷ files) = ground (arith, first-cleared slug p files)

first-uncleared :
    (slug slug' p : String) (files : List FileRow)
    → slug == slug' ≡ false
    → first (is_file slug' p) (delete_where (is_of slug) files) ≡ first (is_file slug' p) files
first-uncleared slug slug' p files ne =
    first-delete_where_other (is_of slug) (is_file slug' p)
      (λ r h.
        ground
          (arith, h, ne, eq_iff r.theme_slug slug, eq_iff r.theme_slug slug', eq_iff slug slug'))
      files

theme_tx-files :
    (faults inserts : Faults) (now : ℕ) (slug : String) (m : Meta) (colors fonts : String)
    (visits : List Visit) (t t' : Tables)
    → theme_tx faults inserts now slug m colors fonts visits t ≡ ok (t', tt)
    → walk inserts 0 now slug visits (delete_where (is_of slug) t.files) ≡ ok t'.files
unfolding theme_tx
theme_tx-files faults inserts now slug m colors fonts visits t t' e =
    let (_, _, e1) = bind-eq-ok (call "begin tx" (faults 0)) _ e in
    let (_, _, e2) = bind-eq-ok (call "upsert themes row" (faults 1)) _ e1 in
    let (_, _, e3) = bind-eq-ok (call "clear theme_files" (faults 2)) _ e2 in
    let (_, _, e4) = bind-eq-ok (call "prepare theme_files insert" (faults 3)) _ e3 in
    let (files, walked, e5) =
      bind-eq-ok (walk inserts 0 now slug visits (delete_where (is_of slug) t.files)) _ e4 in
    let (_, _, e6) = bind-eq-ok (commit_error (faults 4)) _ e5 in
    walked ∙ ap (λ (x : Tables × Unit {0}). ok x.0.files) (ok-injective e6)

-- What a reader of a file gets.
abbrev pub read : Option String → Result String
read none = err not_found
read (some content) = ok content

get_file-content :
    (slug p : String) (t : Tables)
    → get_file none slug p t ≡ read (content_of (first (is_file slug p) t.files))
unfolding get_file
get_file-content slug p t = by_row (first (is_file slug p) t.files)
  where
    by_row : (o : Option FileRow) → scanned_file none o ≡ read (content_of o)
    by_row none = refl
    by_row (some r) = refl

-- After the import of a theme that succeeds, a query of a path of the theme that does not fail gives
-- the content that the theme's directory ships under it, and is refused as "not found" where it ships
-- none, whatever the table had before; queries of other themes' files give what they gave.
pub import_one_theme-get_file :
    (json : Json) (parse : String → Result Meta) (faults inserts : Faults) (now : ℕ)
    (dir : ThemeDir) (t t' : Tables)
    → import_one_theme json parse faults inserts now dir t ≡ (t', ok tt)
    → ((p : String) → get_file none dir.name p t' ≡ read (shipped p dir.visits))
      × ((slug p : String)
          → dir.name == slug ≡ false
          → get_file none slug p t' ≡ get_file none slug p t)
unfolding import_one_theme
import_one_theme-get_file json parse faults inserts now dir t t' e =
    let (bytes, _, e1) =
      bind-eq-ok (in_context "read theme.json" dir.theme_json) _ (commit-eq-ok t _ e) in
    let (m, _, e2) = bind-eq-ok (in_context "parse theme.json" (parse bytes)) _ e1 in
    let (colors, _, e3) = bind-eq-ok (in_context "marshal colors" (json.marshal m.colors)) _ e2 in
    let (fonts, _, e4) = bind-eq-ok (in_context "marshal fonts" (json.marshal m.fonts)) _ e3 in
    let files = delete_where (is_of dir.name) t.files in
    let (gains, keeps) =
      walk-Gains inserts 0 now dir.name dir.visits files t'.files
        (theme_tx-files faults inserts now dir.name m colors fonts dir.visits t t' e4) in
    (
      λ p.
          get_file-content dir.name p t'
          ∙ ap read (
              gains p
              ∙ ap (λ o. or_next (content_of o) (shipped p dir.visits))
                  (first-cleared dir.name p t.files)),
      λ slug p ne.
          get_file-content slug p t'
          ∙ ap (λ o. read (content_of o))
              (keeps slug p ne ∙ first-uncleared dir.name slug p t.files ne)
          ∙ sym (get_file-content slug p t),
    )
