-- ===== src/Templates/Edits.antt =====
-- What an edit in the admin panel leaves in the table of templates.
use x_ui_subpage.Prelude.{
  ℕ, ◌≡◌, ap, inl, inr, String, eq_iff, true, none, some, List, arith, first, first-upsert_self,
  first-delete_where_self, first-delete_where_other, Option, ok, ok-injective, false, ◌==◌,
}
use x_ui_subpage.Templates.{Row, is_at, rewritten, row_of, put, get, delete, scanned}

pub is_at-row_of :
    (format profile protocol content : String) (now : ℕ)
    → is_at format profile protocol (row_of format profile protocol content now) ≡ true
is_at-row_of format profile protocol content now =
    ground (arith, eq_iff format format, eq_iff profile profile, eq_iff protocol protocol)

pub is_at-eq :
    (format profile protocol : String) (r : Row)
    → is_at format profile protocol r ≡ true
    → (r.format ≡ format) × (r.profile ≡ profile) × (r.protocol ≡ protocol)
is_at-eq format profile protocol r h =
    ground (arith, eq_iff r.format format, eq_iff r.profile profile, eq_iff r.protocol protocol)

pub put-row :
    (now : ℕ) (format profile protocol content : String) (t : List Row)
    → (r : Row) × (first
          (is_at format profile protocol)
          (put none now format profile protocol content t).0
        ≡ some r)
      × (r.content ≡ content)
      × (r.updated_at ≡ now)
unfolding put
put-row now format profile protocol content t =
    let (r, found, what) =
      first-upsert_self (is_at format profile protocol) (rewritten content now)
        (row_of format profile protocol content now) t
        (is_at-row_of format profile protocol content now) (λ _ h. h) in
    elim what [
      | inl fresh ↦ (r, found, ap (λ x. x.content) fresh, ap (λ x. x.updated_at) fresh)
      | inr (x, hit, old) ↦ (r, found, ap (λ x. x.content) old, ap (λ x. x.updated_at) old)
    ]

pub delete-row :
    (format profile protocol : String) (t : List Row)
    → first (is_at format profile protocol) (delete none format profile protocol t).0 ≡ none
unfolding delete
delete-row format profile protocol t = first-delete_where_self (is_at format profile protocol) t

pub delete-row_other :
    (format profile profile' protocol : String) (t : List Row)
    → profile == profile' ≡ false
    → first (is_at format profile' protocol) (delete none format profile protocol t).0
      ≡ first (is_at format profile' protocol) t
unfolding delete
delete-row_other format profile profile' protocol t other =
    first-delete_where_other (is_at format profile protocol) (is_at format profile' protocol)
      (λ (r : Row) h. ground (
        arith,
        eq_iff profile profile',
        eq_iff r.format format,
        eq_iff r.profile profile,
        eq_iff r.profile profile',
        eq_iff r.protocol protocol,
      ))
      t

pub get-eq-ok :
    (format profile protocol : String) (t : List Row) (r : Row)
    → get none format profile protocol t ≡ ok r
    → first (is_at format profile protocol) t ≡ some r
unfolding get
get-eq-ok format profile protocol t r e = by_row (first (is_at format profile protocol) t) e
  where
    by_row : (o : Option Row) → scanned none o ≡ ok r → o ≡ some r
    by_row none e = cc
    by_row (some x) e = ap some (ok-injective e)
