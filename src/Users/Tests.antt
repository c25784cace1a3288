-- ===== src/Users/Tests.antt =====
-- The theorems on accounts and assignments at concrete tables.
use x_ui_subpage.Prelude.{
  ℕ, ◌≡◌, ◌≢◌, refl, ◌<◌, All-In, ◌↔◌, ◌⊎◌, true, false, none, some, List, [], ◌∷◌, ◌++◌, arith,
  new, wrap, duplicate, ok, err, In, here, All, Faults, eqb, if◌then◌else◌, affected, select,
  update_where, delete_where,
}
use x_ui_subpage.Users.{User, UserInbound, Accounts, filled, create, get, update, delete}
use x_ui_subpage.Users.SetInbounds.{is_wanted, set_inbounds}
use x_ui_subpage.Users.Reconcile.{Holds, set_inbounds_reconciles, set_inbounds_reports}
use x_ui_subpage.Users.Completion.{set_inbounds_completes}
use x_ui_subpage.Users.Identity.{MadeOf, create-get, create_duplicate}
use x_ui_subpage.Users.Samples.{
  account, assignment, accounts, wants, after, quiet, added, removed, keyed,
}

reconciled : set_inbounds quiet quiet quiet 9 1 wants accounts ≡ (after, ok (added, removed))
unfolding set_inbounds select affected delete_where
reconciled = refl

set_inbounds_reconciles_example :
    ((r : UserInbound) → In r after.assigned → r.user_id ≡ 1 → is_wanted r.inbound_id wants ≡ true)
    × All (Holds 1 after.assigned) wants
    × ((r : UserInbound) → r.user_id ≢ 1 → In r after.assigned ↔ In r accounts.assigned)
set_inbounds_reconciles_example =
    set_inbounds_reconciles quiet quiet quiet 9 1 wants accounts after added removed reconciled
      keyed

set_inbounds_reports_example :
    (In (assignment 2 1 10 1) after.assigned ↔ (
      (In (assignment 2 1 10 1) accounts.assigned × (In (assignment 2 1 10 1) removed → ⊥))
      ⊎ In (assignment 2 1 10 1) added))
    × (In (assignment 2 1 10 1) removed ↔ (
        (In (assignment 2 1 10 1) accounts.assigned × ((assignment 2 1 10 1).user_id ≡ 1))
        × (is_wanted 10 wants ≡ false)))
    × (In (assignment 2 1 10 1) added
        → ((assignment 2 1 10 1).user_id ≡ 1)
          × (is_wanted 10 wants ≡ true)
          × (In (assignment 2 1 10 1) accounts.assigned → ⊥))
set_inbounds_reports_example =
    set_inbounds_reports quiet quiet quiet 9 1 wants accounts after added removed reconciled keyed
      (assignment 2 1 10 1)

-- The commit fails.
abbrev locked : Faults
locked n = if eqb n 2 then some "database is locked" else none

not_reconciled :
    (set_inbounds locked quiet quiet 9 1 wants accounts).1
    ≡ err (wrap "users: set inbounds commit" (new "database is locked"))
unfolding set_inbounds select affected
not_reconciled = refl

set_inbounds_completes_example :
    (t' : Accounts) × (xs : List UserInbound) × (ys : List UserInbound) × (set_inbounds quiet quiet
        quiet 9 1 wants accounts
      ≡ (t', ok (xs, ys)))
unfolding is_wanted
set_inbounds_completes_example =
    set_inbounds_completes quiet quiet quiet 9 1 wants accounts (account 1 "bob" "tok-b")
      (λ k. (refl, refl, refl)) (here refl) refl (refl, (refl, tt))

abbrev carol : User
carol = record (account 0 "carol" "tok-c") { uuid = ""; password = "" }

abbrev with_carol : Accounts
with_carol = record accounts {
  users = accounts.users ++ filled 3 "u-2" "t" 9 carol ∷ [];
  next_user = 4;
}

created_carol : create none 9 "u-2" (ok "t") carol accounts ≡ (with_carol, ok 3)
unfolding create affected
created_carol = refl

create-get_example :
    (w : User) × (get none 3 with_carol ≡ ok w)
    × MadeOf 3 9 "u-2" (ok "t") carol w
    × ((k : ℕ) → k ≢ 3 → get none k with_carol ≡ get none k accounts)
create-get_example =
    create-get 9 "u-2" (ok "t") carol accounts with_carol 3
      (λ v m. All-In (λ (y : User). y.id < 3) v accounts.users (omega arith, (omega arith, tt)) m)
      created_carol

create_duplicate_example :
    ((create none 9 "u-2" (ok "t") (account 0 "bob" "tok-x") accounts).1 ≡ err duplicate)
    ↔ ((v : User) × In v accounts.users × ((v.username ≡ "bob") ⊎ (v.sub_id ≡ "tok-x")))
create_duplicate_example = create_duplicate 9 "u-2" "t" (account 0 "bob" "tok-x") accounts

abbrev robert : User
robert = record (account 0 "robert" "tok-b") { uuid = ""; password = "" }

abbrev renamed : Accounts
renamed = record accounts {
  users = record (account 1 "robert" "tok-b") { updated_at = 9 } ∷ account 2 "eve" "tok-e" ∷ [];
}

updated : update none 9 1 robert accounts ≡ (renamed, none)
unfolding update affected update_where
updated = refl

abbrev without_bob : Accounts
without_bob = record accounts {
  users = account 2 "eve" "tok-e" ∷ [];
  assigned = assignment 3 2 10 1 ∷ [];
}

deleted : delete none 1 accounts ≡ (without_bob, none)
unfolding delete affected delete_where
deleted = refl
