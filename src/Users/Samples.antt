-- ===== src/Users/Samples.antt =====
-- Concrete accounts and assignments, for the tests.
use x_ui_subpage.Prelude.{
  ℕ, String, ◌≡◌, ◌≢◌, ap, sym, ◌∙◌, ◌<◌, All-In, true, none, List, [], ◌∷◌, arith, In, here, there,
  All, Faults,
}
use x_ui_subpage.Prelude.Int.{pos}
use x_ui_subpage.Users.{User, UserInbound, Desired, Accounts, default_method}
use x_ui_subpage.Users.Assigned.{IsKeyed}

abbrev pub account : ℕ → String → String → User
account id username sub_id = record {
  id = id;
  username = username;
  sub_id = sub_id;
  uuid = "u-1";
  password = "pw";
  method = default_method;
  flow = "";
  enabled = true;
  total_gb = pos 0;
  expiry_ms = pos 0;
  notes = "";
  created_at = 1;
  updated_at = 1;
}

abbrev pub assignment : ℕ → ℕ → ℕ → ℕ → UserInbound
assignment id user_id inbound_id at = record {
  id = id;
  user_id = user_id;
  inbound_id = inbound_id;
  inbound_tag = "in";
  protocol = "vless";
  created_at = at;
  updated_at = at;
}

abbrev pub desired : ℕ → Desired
desired inbound_id = record { inbound_id = inbound_id; inbound_tag = "in"; protocol = "vless" }

-- Bob has the inbounds 10 and 20, Eve has 10.
abbrev pub accounts : Accounts
accounts = record {
  users = account 1 "bob" "tok-b" ∷ account 2 "eve" "tok-e" ∷ [];
  next_user = 3;
  assigned = assignment 1 1 20 1 ∷ assignment 2 1 10 1 ∷ assignment 3 2 10 1 ∷ [];
  next_assigned = 4;
}

-- Bob's set becomes 20 and 30.
abbrev pub wants : List Desired
wants = desired 20 ∷ desired 30 ∷ []

abbrev pub after : Accounts
after = record accounts {
  assigned = assignment 1 1 20 1 ∷ assignment 3 2 10 1 ∷ assignment 4 1 30 9 ∷ [];
  next_assigned = 5;
}

abbrev pub quiet : Faults
quiet n = none

abbrev pub added : List UserInbound
added = assignment 4 1 30 9 ∷ []

abbrev pub removed : List UserInbound
removed = assignment 2 1 10 1 ∷ []

abbrev pub Apart : List UserInbound → Type 0
Apart [] = Unit
Apart (r ∷ rows) = All (λ s. r.id ≢ s.id) rows × Apart rows

pub Apart-distinct :
    (rows : List UserInbound)
    → Apart rows
    → (r s : UserInbound) → In r rows
    → In s rows
    → r.id ≡ s.id
    → r ≡ s
Apart-distinct [] h r s m n e = elim m [ ]
Apart-distinct (x ∷ rows) (free, h) r s (here p) (here q) e = p ∙ sym q
Apart-distinct (x ∷ rows) (free, h) r s (here p) (there n) e =
    absurd (All-In (λ y. x.id ≢ y.id) s rows free n (ap (λ y. y.id) (sym p) ∙ e))
Apart-distinct (x ∷ rows) (free, h) r s (there m) (here q) e =
    absurd (All-In (λ y. x.id ≢ y.id) r rows free m (ap (λ y. y.id) (sym q) ∙ sym e))
Apart-distinct (x ∷ rows) (free, h) r s (there m) (there n) e = Apart-distinct rows h r s m n e

pub keyed : IsKeyed accounts
keyed = record {
  distinct = Apart-distinct accounts.assigned (
    ((λ e. omega (arith, e)), ((λ e. omega (arith, e)), tt)),
    (((λ e. omega (arith, e)), tt), (tt, tt)),
  );
  below = λ r m.
      All-In (λ (y : UserInbound). y.id < 4) r accounts.assigned
        (omega arith, (omega arith, (omega arith, tt))) m;
}
