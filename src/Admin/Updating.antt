-- ===== src/Admin/Updating.antt =====
-- An edit of an account by its form, and what the panel is told of it.
use x_ui_subpage.Prelude.{
  arith, sym, eq_iff, ◌≢◌, ◌⊎◌, ◌||◌, bind-eq-ok, ℕ, ◌≡◌, refl, subst, ◌∙◌, ap, inl, inr, String,
  ◌==◌, Bool, Bool-cases, Option, none, some, Error, Result, ok, ok-injective, err,
}
use x_ui_subpage.Prelude.Int.{ℤ, pos}
use x_ui_subpage.Users
use x_ui_subpage.Users.{User, UserInbound, Accounts, is_user, edited, update_users}
use x_ui_subpage.Users.Edits.{update-get}
use x_ui_subpage.Admin.{
  State, Response, to_user, Calls, payload_for, Form, Parsers, optional_field, or_invalid,
  invalid_limit, invalid_date, user_from_form, user_routing_from_form,
}
use x_ui_subpage.Admin.Users.{
  refusal, store_form, moved, tell_panel, after_update, update_with_form, handle_user_update,
}
use x_ui_subpage.Admin.Enqueues.{on_row-found}
use x_ui_subpage.Admin.Queueing.{quiet, Told, enqueue_update-Told}
use x_ui_subpage.Admin.Telling.{Tells, Told-Tells}

tell_panel-Told :
    (later : ℕ → ℕ) (id : ℕ) (w : User) (s : State) (r : Result User)
    → r ≡ ok w
    → Told id w s (tell_panel none (quiet later) id s r)
tell_panel-Told later id w s (err e) h = cc
tell_panel-Told later id w s (ok v) h =
    subst (λ (x : User). Told id x s (tell_panel none (quiet later) id s (ok v))) (ok-injective h)
      (enqueue_update-Told later id v s)

-- The state in which the panel is told: the form's profiles and routing are stored.
stored : Calls → Calls → Parsers → Form → Bool × String → String → User → State → State
stored calls profiles p form routing old_sub_id u s =
    store_form calls profiles p form routing u.sub_id (moved calls old_sub_id u.sub_id s)

stored-same :
    (calls profiles : Calls) (p : Parsers) (form : Form) (routing : Bool × String)
    (old_sub_id : String) (u : User) (s : State)
    → ((stored calls profiles p form routing old_sub_id u s).jobs ≡ s.jobs)
      × ((stored calls profiles p form routing old_sub_id u s).accounts ≡ s.accounts)
unfolding stored
stored-same calls profiles p form (enabled, b64) old_sub_id u s =
    elim (Bool-cases (old_sub_id == u.sub_id)) [
      | inl e ↦ rw e (refl, refl)
      | inr e ↦ rw e (refl, refl)
    ]

refusal-to_user : (e : Error) (id : ℕ) → refusal e ≡ to_user id → ⊥
refusal-to_user Error.no_rows id h = cc
refusal-to_user Error.not_found id h = cc
refusal-to_user Error.duplicate id h = cc
refusal-to_user Error.invalid_credentials id h = cc
refusal-to_user Error.session_not_found id h = cc
refusal-to_user (Error.new m) id h = cc
refusal-to_user (Error.wrap c x) id h = cc

after_update-succeeded :
    (now : ℕ → ℕ) (profiles : Calls) (later : ℕ → ℕ) (p : Parsers) (form : Form)
    (routing : Bool × String) (id : ℕ) (old_sub_id : String) (u : User) (s s' : State)
    (o : Accounts × Option Error)
    → after_update (quiet now) profiles (quiet later) p form routing id old_sub_id u s o
      ≡ (s', to_user id)
    → o ≡ (o.0, none)
after_update-succeeded now profiles later p form routing id old_sub_id u s s' (accounts, none) h =
    refl
after_update-succeeded now profiles later p form routing id old_sub_id u s s' (accounts, some e) h =
    absurd (refusal-to_user e id (ap (λ (x : State × Response). x.1) h))

after_update-found :
    (now : ℕ → ℕ) (profiles : Calls) (later : ℕ → ℕ) (p : Parsers) (form : Form)
    (routing : Bool × String) (id : ℕ) (old_sub_id : String) (u w : User) (s s' : State)
    (o : Accounts × Option Error)
    → after_update (quiet now) profiles (quiet later) p form routing id old_sub_id u s o
      ≡ (s', to_user id)
    → (o ≡ (o.0, none) → Users.get none id o.0 ≡ ok w)
    → (o ≡ (o.0, none)) × (s'.accounts ≡ o.0) × Tells id w s s'
unfolding stored
after_update-found now profiles later p form routing id old_sub_id u w s s' (accounts, some e) h
      row =
    absurd (refusal-to_user e id (ap (λ (x : State × Response). x.1) h))
after_update-found now profiles later p form routing id old_sub_id u w s s' (accounts, none) h row =
    let s1 =
      stored (quiet now) profiles p form routing old_sub_id u (record s { accounts = accounts }) in
    let (jobs, same) =
      stored-same (quiet now) profiles p form routing old_sub_id u
        (record s { accounts = accounts }) in
    let told =
      subst (Told id w s1) (ap (λ (x : State × Response). x.0) h)
        (tell_panel-Told later id w s1 (Users.get none id accounts) (row refl)) in
    (refl, told.accounts_stay ∙ same, Told-Tells id w s s1 s' jobs told)

update_with_form-found :
    (now : ℕ → ℕ) (profiles loop : Calls) (p : Parsers) (form : Form) (id : ℕ) (a : Result User)
    (b : Result (Bool × String)) (s s' : State)
    → update_with_form (quiet now) profiles loop p form id a b s ≡ (s', to_user id)
    → (u : User) × (routing : Bool × String) × (existing : User) × (a ≡ ok u)
      × (Users.get none id s.accounts ≡ ok existing)
      × (after_update
            (quiet now)
            profiles
            loop
            p
            form
            routing
            id
            existing.sub_id
            u
            s
            (Users.update none (now 0) id u s.accounts)
          ≡ (s', to_user id))
update_with_form-found now profiles loop p form id (err e) b s s' h = cc
update_with_form-found now profiles loop p form id (ok u) (err e) s s' h = cc
update_with_form-found now profiles loop p form id (ok u) (ok routing) s s' h =
    let edit = λ (i : ℕ) (existing : User) (s1 : State).
      after_update (quiet now) profiles loop p form routing id existing.sub_id u s1
        (Users.update none (now 0) id u s1.accounts) in
    let (existing, found, ran) = on_row-found id edit s s' (Users.get none id s.accounts) h in
    (u, routing, existing, refl, found, ran)

-- A field that is a number, or empty for 0.
abbrev pub ReadAs : (String → Option ℤ) → String → ℤ → Type 0
ReadAs parse v n = ((v ≡ "") × (n ≡ pos 0)) ⊎ (v ≢ "" × (parse v ≡ some n))

optional_field-ReadAs :
    (invalid : Error) (parse : String → Option ℤ) (v : String) (n : ℤ)
    → optional_field invalid parse v ≡ ok n
    → ReadAs parse v n
optional_field-ReadAs invalid parse v n e = elim (Bool-cases (v == "")) [
  | inl h ↦ inl (ground (arith, h, eq_iff v ""), sym (ok-injective (rw h at e)))
  | inr h ↦ inr ((λ same. ground (arith, h, same, eq_iff v "")), parsed (parse v) (rw h at e))
]
  where
    parsed : (o : Option ℤ) → or_invalid invalid o ≡ ok n → o ≡ some n
    parsed none e = cc
    parsed (some m) e = ap some (ok-injective e)

-- The account has what the form says.
abbrev pub IsOf : Parsers → Form → User → Type 0
IsOf p form w =
    (w.username ≡ p.trim_space form.username)
    × (w.sub_id ≡ p.trim_space form.sub_id)
    × (w.flow ≡ form.flow)
    × (w.method ≡ form.method)
    × ReadAs p.parse_limit (p.trim_space form.total_gb) w.total_gb
    × ReadAs p.parse_date (p.trim_space form.expiry) w.expiry_ms
    × (w.notes ≡ form.notes)

user_from_form-IsOf :
    (p : Parsers) (form : Form) (u : User) → user_from_form p form ≡ ok u → IsOf p form u
unfolding user_from_form
user_from_form-IsOf p form u e =
    elim (Bool-cases (p.trim_space form.username == "" || p.trim_space form.sub_id == "")) [
      | inl missing ↦ absurd (refused (rw missing at e))
      | inr given ↦
          let (total, limit, e1) =
            bind-eq-ok
              (optional_field (invalid_limit p (p.trim_space form.total_gb)) p.parse_limit
                (p.trim_space form.total_gb))
              _ (rw given at e) in
          let (expiry, date, e2) =
            bind-eq-ok
              (optional_field (invalid_date p (p.trim_space form.expiry)) p.parse_date
                (p.trim_space form.expiry))
              _ e1 in
          subst (IsOf p form) (ok-injective e2) (
            refl,
            refl,
            refl,
            refl,
            optional_field-ReadAs _ p.parse_limit (p.trim_space form.total_gb) total limit,
            optional_field-ReadAs _ p.parse_date (p.trim_space form.expiry) expiry date,
            refl,
          )
    ]
  where
    refused : {x : Error} → err x ≡ ok u → ⊥
    refused q = cc

-- When the engine does not fail on the users and the queue, an edit that ends on the user's page
-- gives the account the form's name, token, flow, method, limit, expiry and notes, keeps its uuid,
-- password, flag and date of creation, and enqueues, for each assignment of the user, a job to
-- update the client to the account as it is then, under its new name, and no others. All other
-- accounts stay.
pub handle_user_update-jobs :
    (now : ℕ → ℕ) (profiles : Calls) (later : ℕ → ℕ) (p : Parsers) (form : Form) (id : ℕ)
    (s s' : State)
    → handle_user_update (quiet now) profiles (quiet later) p (some id) form s ≡ (s', to_user id)
    → (v : User) × (w : User) × (Users.get none id s.accounts ≡ ok v)
      × (Users.get none id s'.accounts ≡ ok w)
      × IsOf p form w
      × ((w.uuid ≡ v.uuid)
          × (w.password ≡ v.password)
          × (w.enabled ≡ v.enabled)
          × (w.created_at ≡ v.created_at))
      × ((k : ℕ) → k ≢ id → Users.get none k s'.accounts ≡ Users.get none k s.accounts)
      × ((payload_for w).email ≡ p.trim_space form.username)
      × Tells id w s s'
unfolding handle_user_update payload_for
handle_user_update-jobs now profiles later p form id s s' h =
    let (u, routing, existing, filled, found, ran) =
      update_with_form-found now profiles (quiet later) p form id (user_from_form p form)
        (user_routing_from_form p form) s s' h in
    let o = Users.update none (now 0) id u s.accounts in
    let done =
      after_update-succeeded now profiles later p form routing id existing.sub_id u s s' o ran in
    let (
      v, w, old, new, name, token, flow, method, limit, expiry, notes, uuid, password, flag, made,
      others,
    ) =
      update-get (now 0) id u s.accounts o.0 done in
    let (_, accounts, tells) =
      after_update-found now profiles later p form routing id existing.sub_id u w s s' o ran
        (λ _. new) in
    let (name', token', flow', method', limit', expiry', notes') =
      user_from_form-IsOf p form u filled in
    (
      v,
      w,
      old,
      ap (Users.get none id) accounts ∙ new,
      (
        name ∙ name',
        token ∙ token',
        flow ∙ flow',
        method ∙ method',
        subst (ReadAs p.parse_limit (p.trim_space form.total_gb)) (sym limit) limit',
        subst (ReadAs p.parse_date (p.trim_space form.expiry)) (sym expiry) expiry',
        notes ∙ notes',
      ),
      (uuid, password, flag, made),
      (λ k other. ap (Users.get none k) accounts ∙ others k other),
      name ∙ name',
      tells,
    )
