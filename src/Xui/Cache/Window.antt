-- ===== src/Xui/Cache/Window.antt =====
-- Within one lifetime after an upstream call its outcome, a success or a failure, is served again.
use x_ui_subpage.Prelude.{
  ℕ, ◌+◌, ◌≤◌, ◌<◌, ◌≡◌, refl, none, some, List, [], ◌∷◌, arith, All, map, Result, ok, err,
}
use x_ui_subpage.Xui.Cache.{TtlCache, max_duration, look, keep, refresh, get, get_all}

-- All times from `lo` on and before `hi` find the answer `r` in the cache.
abbrev pub Serves : {T : Type 0} → TtlCache T → Result T → ℕ → ℕ → Type 0
Serves c r lo hi =
    (now now' : ℕ) → lo ≤ now → now < hi → lo ≤ now' → now' < hi → look now now' c ≡ some r

-- The times that a call reads.
abbrev pub Within : ℕ → ℕ → (ℕ → ℕ) → Type 0
Within lo hi clock = (i : ℕ) → (lo ≤ clock i) × (clock i < hi)

abbrev pub Monotone : (ℕ → ℕ) → Type 0
Monotone clock = (i : ℕ) → clock i ≤ clock (i + 1)

module _ {T U : Type 0} (fetch : U → U × Result T) where
  keep-Serves :
      (now early early' : ℕ) (c : TtlCache T) (answer : U × Result T)
      → 0 < c.ttl
      → c.ttl ≤ max_duration
      → early ≤ now
      → early' ≤ now
      → look early early' c ≡ none
      → Serves (keep fetch now c answer).0.0 (keep fetch now c answer).1 now (now + c.ttl)
  unfolding keep look
  keep-Serves now early early' c (u, ok v) pos small p q missed t t' a b a' b' = ground arith
  keep-Serves now early early' c (u, err e) pos small p q missed t t' a b a' b' = ground arith

  get_of_Serves :
      (clock : ℕ → ℕ) (c : TtlCache T) (u : U) (r : Result T) (lo hi : ℕ)
      → Serves c r lo hi
      → Within lo hi clock
      → get fetch clock c u ≡ ((c, u), r)
  unfolding get
  get_of_Serves clock c u r lo hi serves within =
      ground (arith, serves (clock 0) (clock 1) (within 0).0 (within 0).1 (within 1).0 (within 1).1)

  get_all_of_Serves :
      (clocks : List (ℕ → ℕ)) (c : TtlCache T) (u : U) (r : Result T) (lo hi : ℕ)
      → Serves c r lo hi
      → All (Within lo hi) clocks
      → get_all fetch clocks c u ≡ ((c, u), map (λ _. r) clocks)
  unfolding get_all
  get_all_of_Serves [] c u r lo hi serves within = refl
  get_all_of_Serves (clock ∷ clocks) c u r lo hi serves (here, later) =
      rw
        (
          get_of_Serves clock c u r lo hi serves here,
          get_all_of_Serves clocks c u r lo hi serves later,
        )
        refl

  pub get_of_missed :
      (clock : ℕ → ℕ) (c : TtlCache T) (u : U)
      → look (clock 0) (clock 1) c ≡ none
      → look (clock 2) (clock 3) c ≡ none
      → get fetch clock c u ≡ keep fetch (clock 4) c (fetch u)
  unfolding get refresh
  get_of_missed clock c u missed missed' = ground arith

  pub keep-answer :
      (now : ℕ) (c : TtlCache T) (answer : U × Result T)
      → ((keep fetch now c answer).0.1 ≡ answer.0) × ((keep fetch now c answer).1 ≡ answer.1)
  unfolding keep
  keep-answer now c (u, ok v) = (refl, refl)
  keep-answer now c (u, err e) = (refl, refl)

  -- After a call that went upstream, all calls that fall within one lifetime of it give its result,
  -- a value or an error, again, and make no upstream call: upstream's state stays as it was.
  pub get-window :
      (clock : ℕ → ℕ) (c : TtlCache T) (u : U) (clocks : List (ℕ → ℕ))
      → 0 < c.ttl
      → c.ttl ≤ max_duration
      → Monotone clock
      → look (clock 0) (clock 1) c ≡ none
      → look (clock 2) (clock 3) c ≡ none
      → All (Within (clock 4) (clock 4 + c.ttl)) clocks
      → (get_all fetch clocks (get fetch clock c u).0.0 (get fetch clock c u).0.1
          ≡ ((get fetch clock c u).0, map (λ _. (get fetch clock c u).1) clocks))
        × ((get fetch clock c u).0.1 ≡ (fetch u).0)
        × ((get fetch clock c u).1 ≡ (fetch u).1)
  get-window clock c u clocks pos small mono missed missed' within =
      rw (get_of_missed clock c u missed missed') (
        get_all_of_Serves clocks _ _ _ (clock 4) (clock 4 + c.ttl)
            (keep-Serves (clock 4) (clock 2) (clock 3) c (fetch u) pos small
              (omega (arith, mono 2, mono 3)) (mono 3) missed')
            within,
        (keep-answer (clock 4) c (fetch u)).0,
        (keep-answer (clock 4) c (fetch u)).1,
      )
