-- ===== src/Importer.antt =====
-- internal/importer: the templates that an import takes from the files on disk, one transaction per
-- format, with the table `import_manifest` that says when the importer wrote a row last.
pub mod Slot
pub mod Pruning
pub mod Runs
pub mod Survival
pub mod Outcome
pub mod Applications
pub mod Themes
pub mod Whole
pub mod Edits
mod Tests
use x_ui_subpage.Prelude.{
  in_context, ℕ, suc, String, Bool, true, false, not, ◌&&◌, ◌||◌, Option, none, some, List, [], ◌∷◌,
  ◌++◌, if◌then◌else◌, eqb, ◌==◌, Error, new, wrap, Result, ok, err, ◌>>=◌, ◌>>◌, Fault, Faults,
  call, commit, select, first, update_where, upsert, delete_where, concat, has_suffix, trim_suffix,
}
use x_ui_subpage.Templates.{Row, is_at, rewritten, row_of, one_of}

pub record ManifestKey : Type 0 where
  pub format : String
  pub profile : String
  pub protocol : String

-- A row of `import_manifest`, whose primary key is (format, profile, protocol).
pub record Entry : Type 0 where
  pub format : String
  pub profile : String
  pub protocol : String
  pub updated_at : ℕ

pub record Tables : Type 0 where
  pub templates : List Row
  pub manifest : List Entry

abbrev pub has_slot : ManifestKey → Row → Bool
has_slot k r = is_at k.format k.profile k.protocol r

abbrev pub is_for : ManifestKey → Entry → Bool
is_for k e = e.format == k.format && e.profile == k.profile && e.protocol == k.protocol

abbrev pub same_key : ManifestKey → ManifestKey → Bool
same_key k j = j.format == k.format && j.profile == k.profile && j.protocol == k.protocol

abbrev pub key_of : Entry → ManifestKey
key_of e = record { format = e.format; profile = e.profile; protocol = e.protocol }

abbrev pub entry_of : ManifestKey → ℕ → Entry
entry_of k now = record {
  format = k.format;
  profile = k.profile;
  protocol = k.protocol;
  updated_at = now;
}

-- A key as `%+v` prints it, behind what was done.
abbrev pub about : String → ManifestKey → String
about verb k =
    concat (
      verb ∷ " {Format:" ∷ k.format ∷ " Profile:" ∷ k.profile ∷ " Protocol:" ∷ k.protocol ∷ "}"
      ∷ [])

-- The map is the list of its rows, no two of which share a key.
unfoldable pub load_manifest : Fault → List String → Tables → Result (List Entry)
load_manifest (some cause) formats t = err (wrap "importer: load manifest" (new cause))
load_manifest none formats t = ok (select (λ e. one_of e.format formats) t.manifest)

unfoldable pub record_manifest : Fault → ManifestKey → ℕ → Tables → Result Tables
record_manifest (some cause) k now t = err (new cause)
record_manifest none k now t = ok (record t {
  manifest = upsert (is_for k) (λ e. record e { updated_at = now }) (entry_of k now) t.manifest;
})

-- lastImportedAt, tracked := oldManifest[k], and whether it is the row's stamp
abbrev pub is_pristine : Row → Option Entry → Bool
is_pristine r none = false
is_pristine r (some e) = eqb r.updated_at e.updated_at

-- The outcome of the query for the row decides. The calls of the engine are the query at 0, the
-- write at 1 and the one on the manifest at 2.
unfoldable pub upsert_found :
    Faults → ManifestKey → String → List Entry → ℕ → Option Row → Tables → Result Tables
unfolding record_manifest
upsert_found faults k new_content old now none t =
    call (about "importer: insert" k) (faults 1)
    >> record_manifest (faults 2) k now (record t {
      templates = t.templates ++ row_of k.format k.profile k.protocol new_content now ∷ [];
    })
upsert_found faults k new_content old now (some r) t =
    if not (is_pristine r (first (is_for k) old))
    then ok t
    else if r.content == new_content
    then ok t
    else call (about "importer: refresh" k) (faults 1)
      >> record_manifest (faults 2) k now (record t {
        templates = update_where (has_slot k) (rewritten new_content now) t.templates;
      })

unfoldable pub upsert_template_preserving_edits :
    Faults → ManifestKey → String → List Entry → ℕ → Tables → Result Tables
unfolding upsert_found
upsert_template_preserving_edits faults k new_content old now t =
    call (about "importer: check existing" k) (faults 0)
    >> upsert_found faults k new_content old now (first (has_slot k) t.templates) t

abbrev pub is_current : ManifestKey → List ManifestKey → Bool
is_current k [] = false
is_current k (j ∷ current) = same_key k j || is_current k current

abbrev pub still_matches : Entry → Option Row → Bool
still_matches e none = false
still_matches e (some r) = eqb r.updated_at e.updated_at

unfoldable pub prune_row : Fault → Entry → Tables → Result Tables
prune_row fault e t =
    if still_matches e (first (has_slot (key_of e)) t.templates)
    then (call (about "importer: prune orphaned" (key_of e)) fault
        >> ok (record t { templates = delete_where (has_slot (key_of e)) t.templates }))
    else ok t

-- The loop over the old manifest, in the order in which the map gives its entries.
unfoldable pub prune_orphaned :
    (ℕ → Faults) → ℕ → List Entry → List ManifestKey → Tables → Result Tables
unfolding prune_row
prune_orphaned faults i [] current t = ok t
prune_orphaned faults i (e ∷ old) current t = elim (is_current (key_of e) current) [
  | true ↦ prune_orphaned faults (suc i) old current t
  | false ↦
      call (about "importer: check orphaned" (key_of e)) (faults i 0)
      >> (prune_row (faults i 1) e t >>= λ t'.
          (call (about "importer: clear manifest" (key_of e)) (faults i 2)
            >> prune_orphaned faults (suc i) old current
                (record t' { manifest = delete_where (is_for (key_of e)) t'.manifest })))
]

-- A directory entry: its name, whether it is a directory, and what reading it gives.
pub record DirEntry : Type 0 where
  pub name : String
  pub is_dir : Bool
  pub content : Result String

abbrev pub is_template : DirEntry → Bool
is_template e = not e.is_dir && has_suffix e.name ".tmpl"

abbrev pub slot_of : String → String → ManifestKey
slot_of format name = record {
  format = format;
  profile = trim_suffix (trim_suffix name ".tmpl") ".yaml";
  protocol = "";
}

-- The loop over the directory; it also gives the keys that it saw.
unfoldable pub import_entries :
    (ℕ → Faults)
    → ℕ
    → String
    → List Entry
    → ℕ
    → List DirEntry
    → Tables
    → Result (Tables × List ManifestKey)
unfolding upsert_template_preserving_edits
import_entries faults i format old now [] t = ok (t, [])
import_entries faults i format old now (e ∷ entries) t = elim (is_template e) [
  | false ↦ import_entries faults (suc i) format old now entries t
  | true ↦ in_context (concat ("importer: read " ∷ e.name ∷ [])) e.content >>= λ content.
      (in_context (concat ("importer: " ∷ format ∷ "/" ∷ (slot_of format e.name).profile ∷ []))
          (upsert_template_preserving_edits (faults i) (slot_of format e.name) content old now t)
        >>= λ t'.
            (import_entries faults (suc i) format old now entries t' >>= λ (t'', current).
            ok (t'', slot_of format e.name ∷ current)))
]

-- What the engine reports: for the call that begins the transaction (0), the query for the manifest
-- (1) and the commit (2), and for the calls of the two loops.
pub record Reports : Type 0 where
  pub own : Faults
  pub writes : ℕ → Faults
  pub prunes : ℕ → Faults

abbrev pub commit_error : Fault → Result (Unit {0})
commit_error none = ok tt
commit_error (some cause) = err (new cause)

-- The body of the transaction. `range` gives the entries of a map in the order of Go's `range`, and
-- `dir` is what `os.ReadDir` gives for the format's directory.
unfoldable pub import_tx :
    (List Entry → List Entry)
    → Reports
    → ℕ
    → String
    → String
    → Result (List DirEntry)
    → Tables
    → Result (Tables × Unit {0})
unfolding load_manifest import_entries prune_orphaned
import_tx range faults now path format dir t = do
  entries ← in_context (concat ("importer: read " ∷ path ∷ [])) dir
  call "importer: begin tx" (faults.own 0)
  old ← load_manifest (faults.own 1) (format ∷ []) t
  (t', current) ← import_entries faults.writes 0 format old now entries t
  t'' ← prune_orphaned faults.prunes 0 (range old) current t'
  commit_error (faults.own 2)
  ok (t'', tt)

unfoldable pub import_yaml_templates :
    (List Entry → List Entry)
    → Reports
    → ℕ
    → String
    → String
    → Result (List DirEntry)
    → Tables
    → Tables × Result (Unit {0})
unfolding import_tx
import_yaml_templates range faults now path format dir t =
    commit t (import_tx range faults now path format dir t)
