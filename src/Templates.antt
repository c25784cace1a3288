-- ===== src/Templates.antt =====
-- internal/templatestore: the table `templates` and the operations that the admin panel runs on it.
-- The table's primary key is (format, profile, protocol).
pub mod Edits
mod Tests
use x_ui_subpage.Prelude.{
  ℕ, String, Bool, true, false, not, ◌&&◌, ◌||◌, Option, none, some, List, [], ◌∷◌, if◌then◌else◌,
  ◌==◌, Error, new, wrap, not_found, Result, ok, err, Fault, select, first, upsert, delete_where,
  concat,
}

pub record Row : Type 0 where
  pub format : String
  pub profile : String
  pub protocol : String
  pub content : String
  pub updated_at : ℕ

-- WHERE format = ? AND profile = ? AND protocol = ?
abbrev pub is_at : String → String → String → Row → Bool
is_at format profile protocol r =
    r.format == format && r.profile == profile && r.protocol == protocol

-- ORDER BY, with the order of the engine as `before`: a row goes in front of the first one that it
-- does not stand behind.
abbrev pub insert_ordered {ℓ} : {A : Type ℓ} → (A → A → Bool) → A → List A → List A
insert_ordered before r [] = r ∷ []
insert_ordered before r (s ∷ rows) =
    let rest = insert_ordered before r rows in if before r s then r ∷ s ∷ rows else s ∷ rest

unfoldable pub order_by {ℓ} : {A : Type ℓ} → (A → A → Bool) → List A → List A
order_by before [] = []
order_by before (r ∷ rows) = insert_ordered before r (order_by before rows)

-- The columns of ORDER BY one after the other, with the engine's order on texts.
abbrev pub before_row : (String → String → Bool) → Row → Row → Bool
before_row le r s =
    if r.format == s.format
    then (if r.profile == s.profile then le r.protocol s.protocol else le r.profile s.profile)
    else le r.format s.format

unfoldable pub list : (String → String → Bool) → Fault → List Row → Result (List Row)
unfolding order_by
list le (some cause) t = err (wrap "templatestore: query" (new cause))
list le none t = ok (order_by (before_row le) t)

abbrev pub one_of : String → List String → Bool
one_of s [] = false
one_of s (x ∷ xs) = x == s || one_of s xs

abbrev pub profiles_of : List Row → List String
profiles_of [] = []
profiles_of (r ∷ rows) = r.profile ∷ profiles_of rows

-- The loop over the profiles; `seen` are those that were appended before.
unfoldable pub unseen : List String → List String → List String
unseen seen [] = []
unseen seen (p ∷ ps) = elim (one_of p seen) [
  | true ↦ unseen seen ps
  | false ↦ p ∷ unseen (p ∷ seen) ps
]

-- DISTINCT leaves nothing that the loop does not drop itself.
unfoldable pub profiles_for_formats :
    (String → String → Bool) → Fault → List String → List Row → Result (List String)
unfolding order_by unseen
profiles_for_formats le (some cause) formats t =
    err (wrap "templatestore: query profiles for formats" (new cause))
profiles_for_formats le none formats t = ok (
    "default"
    ∷ unseen ("default" ∷ []) (order_by le (profiles_of (select (λ r. one_of r.format formats) t))))

abbrev pub scanned : Fault → Option Row → Result Row
scanned (some cause) row = err (wrap "templatestore: query" (new cause))
scanned none none = err not_found
scanned none (some r) = ok r

unfoldable pub get : Fault → String → String → String → List Row → Result Row
get fault format profile protocol t = scanned fault (first (is_at format profile protocol) t)

abbrev pub row_of : String → String → String → String → ℕ → Row
row_of format profile protocol content now = record {
  format = format;
  profile = profile;
  protocol = protocol;
  content = content;
  updated_at = now;
}

abbrev pub rewritten : String → ℕ → Row → Row
rewritten content now r = record r { content = content; updated_at = now }

abbrev pub at_text : String → String → String → String → String
at_text verb format profile protocol =
    concat (verb ∷ " (" ∷ format ∷ "," ∷ profile ∷ "," ∷ protocol ∷ ")" ∷ [])

unfoldable pub put :
    Fault → ℕ → String → String → String → String → List Row → List Row × Option Error
put (some cause) now format profile protocol content t =
    (t, some (wrap (at_text "templatestore: put" format profile protocol) (new cause)))
put none now format profile protocol content t = (
  upsert (is_at format profile protocol) (rewritten content now)
      (row_of format profile protocol content now) t,
  none,
)

unfoldable pub delete : Fault → String → String → String → List Row → List Row × Option Error
delete (some cause) format profile protocol t =
    (t, some (wrap (at_text "templatestore: delete" format profile protocol) (new cause)))
delete none format profile protocol t = (delete_where (is_at format profile protocol) t, none)
