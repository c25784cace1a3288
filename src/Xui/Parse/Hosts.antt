-- ===== src/Xui/Parse/Hosts.antt =====
-- Which host group wins for an inbound.
use x_ui_subpage.Prelude.{
  ℕ, ◌≡◌, refl, ap, true, false, Option, none, some, List, [], ◌∷◌, ◌++◌, arith, All, Bool-cases,
  inl, inr, ◌⊎◌,
}
use x_ui_subpage.Prelude.Int.{◌≤ℤ◌, ◌<ℤ◌}
use x_ui_subpage.Xui.Models.{HostGroup}
use x_ui_subpage.Xui.Parse.{is_eligible, is_better, select_from, select_host_for_inbound}

abbrev pub AtLeast : ℕ → HostGroup → List HostGroup → Type 0
AtLeast id g = All (λ h. is_eligible id h ≡ true → g.sort_order ≤ℤ h.sort_order)

abbrev pub Above : ℕ → HostGroup → List HostGroup → Type 0
Above id g = All (λ h. is_eligible id h ≡ true → g.sort_order <ℤ h.sort_order)

-- The group is eligible, stands somewhere in the list, and has the lowest sort order of all
-- eligible groups; of several with that order it is the first.
pub record Wins (id : ℕ) (groups : List HostGroup) (g : HostGroup) : Type 0 where
  pub before : List HostGroup
  pub after : List HostGroup
  pub split : groups ≡ before ++ g ∷ after
  pub eligible : is_eligible id g ≡ true
  pub lowest_before : Above id g before
  pub lowest_after : AtLeast id g after

abbrev pub Answers : ℕ → List HostGroup → Option HostGroup → Type 0
Answers id groups none = All (λ h. is_eligible id h ≡ false) groups
Answers id groups (some g) = Wins id groups g

-- From a best group so far: it stays, or a later one is lower.
abbrev Improves : ℕ → HostGroup → List HostGroup → Option HostGroup → Type 0
Improves id best groups none = ⊥
Improves id best groups (some g) =
    ((g ≡ best) × AtLeast id best groups) ⊎ (Wins id groups g × (g.sort_order <ℤ best.sort_order))

Wins-cons :
    (id : ℕ) (h g : HostGroup) (groups : List HostGroup)
    → (is_eligible id h ≡ true → g.sort_order <ℤ h.sort_order)
    → Wins id groups g
    → Wins id (h ∷ groups) g
Wins-cons id h g groups above w = record {
  before = h ∷ w.before;
  after = w.after;
  split = ap (λ gs. h ∷ gs) w.split;
  eligible = w.eligible;
  lowest_before = (above, w.lowest_before);
  lowest_after = w.lowest_after;
}

Wins-head :
    (id : ℕ) (h : HostGroup) (groups : List HostGroup)
    → is_eligible id h ≡ true
    → AtLeast id h groups
    → Wins id (h ∷ groups) h
Wins-head id h groups e least = record {
  before = [];
  after = groups;
  split = refl;
  eligible = e;
  lowest_before = tt;
  lowest_after = least;
}

Improves-skip :
    (id : ℕ) (best h : HostGroup) (groups : List HostGroup) (r : Option HostGroup)
    → (is_eligible id h ≡ true → best.sort_order ≤ℤ h.sort_order)
    → Improves id best groups r
    → Improves id best (h ∷ groups) r
Improves-skip id best h groups (some g) above (inl (same, least)) = inl (same, (above, least))
Improves-skip id best h groups (some g) above (inr (w, lower)) =
    inr (Wins-cons id h g groups (λ e. omega (arith, above e)) w, lower)
Improves-skip id best h groups none above i = i

-- The head is better, and the loop goes on from it.
Improves-take :
    (id : ℕ) (best h : HostGroup) (groups : List HostGroup) (r : Option HostGroup)
    → is_eligible id h ≡ true
    → h.sort_order <ℤ best.sort_order
    → Improves id h groups r
    → Improves id best (h ∷ groups) r
Improves-take id best h groups (some g) e lower (inl (same, least)) =
    inr (rw same (Wins-head id h groups e least), rw same lower)
Improves-take id best h groups (some g) e lower (inr (w, lower')) =
    inr (Wins-cons id h g groups (λ _. lower') w, omega arith)
Improves-take id best h groups none e lower i = i

select_from-Improves :
    (id : ℕ) (best : HostGroup) (groups : List HostGroup)
    → Improves id best groups (select_from (some best) groups id)
unfolding select_from
select_from-Improves id best [] = inl (refl, tt)
select_from-Improves id best (h ∷ groups) = elim (Bool-cases (is_eligible id h)) [
  | inr skipped ↦ rw skipped (
      Improves-skip id best h groups _ (λ e. cc (skipped, e)) (select_from-Improves id best groups))
  | inl e ↦ elim (Bool-cases (is_better h (some best))) [
    | inl better ↦
        rw (e, better)
          (Improves-take id best h groups _ e (ground arith) (select_from-Improves id h groups))
    | inr worse ↦
        rw (e, worse)
          (Improves-skip id best h groups _ (λ _. ground arith)
            (select_from-Improves id best groups))
  ]
]

Answers-Improves :
    (id : ℕ) (h : HostGroup) (groups : List HostGroup) (r : Option HostGroup)
    → is_eligible id h ≡ true
    → Improves id h groups r
    → Answers id (h ∷ groups) r
Answers-Improves id h groups (some g) e (inl (same, least)) =
    rw same (Wins-head id h groups e least)
Answers-Improves id h groups (some g) e (inr (w, lower)) = Wins-cons id h g groups (λ _. lower) w
Answers-Improves id h groups none e i = absurd i

Answers-skip :
    (id : ℕ) (h : HostGroup) (groups : List HostGroup) (r : Option HostGroup)
    → is_eligible id h ≡ false
    → Answers id groups r
    → Answers id (h ∷ groups) r
Answers-skip id h groups (some g) e w = Wins-cons id h g groups (λ e'. cc (e, e')) w
Answers-skip id h groups none e none_left = (e, none_left)

-- The host that an inbound gets: none when no group is eligible (neither disabled nor hidden, and
-- listing the inbound), else the first eligible group with the lowest sort order.
pub select_host_for_inbound-Answers :
    (groups : List HostGroup) (id : ℕ) → Answers id groups (select_host_for_inbound groups id)
unfolding select_host_for_inbound select_from
select_host_for_inbound-Answers [] id = tt
select_host_for_inbound-Answers (h ∷ groups) id = elim (Bool-cases (is_eligible id h)) [
  | inl e ↦ rw e (Answers-Improves id h groups _ e (select_from-Improves id h groups))
  | inr skipped ↦
      rw skipped (Answers-skip id h groups _ skipped (select_host_for_inbound-Answers groups id))
]
