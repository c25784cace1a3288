-- ===== src/Xui/Cache.antt =====
-- internal/xui/cache.go: the cache that keeps one upstream result, a success or a failure, for a
-- while. Times are nanoseconds since Go's zero time, which is 0. The singleflight group is left
-- out: `get` is one caller's path, in its two critical parts `look` and `refresh`, and other
-- goroutines act on the cache between these by giving `refresh` another cache.
pub mod Window
pub mod Invalidation
use x_ui_subpage.Prelude.{
  ℕ, ◌+◌, ◌-◌, ◌^◌, min, Bool, true, false, ◌&&◌, Option, none, some, List, [], ◌∷◌, ltb, String,
  if◌then◌else◌, Error, Result, ok, err,
}

-- A negative lifetime disables the cache as 0 does.
pub record TtlCache (T : Type 0) : Type 0 where
  pub ttl : ℕ
  pub value : T
  pub fetched_at : ℕ
  pub last_err : Option Error
  pub errored_at : ℕ

-- `time.Since`, which saturates at the largest duration.
abbrev pub max_duration : ℕ
max_duration = 2 ^ 63 - 1

abbrev pub since : ℕ → ℕ → ℕ
since now t = min (now - t) max_duration

module _ {T : Type 0} where
  -- c.ttl > 0 && time.Since(c.fetchedAt) < c.ttl
  unfoldable pub is_fresh : ℕ → TtlCache T → Bool
  is_fresh now c = ltb 0 c.ttl && ltb (since now c.fetched_at) c.ttl

  -- The error to replay: c.ttl > 0 && c.lastErr != nil && time.Since(c.erroredAt) < c.ttl
  unfoldable pub fresh_err : ℕ → TtlCache T → Option Error
  fresh_err now c = elim c.last_err [
    | none ↦ none
    | some e ↦ if ltb 0 c.ttl && ltb (since now c.errored_at) c.ttl then some e else none
  ]

  -- The answer that needs no upstream call, if there is one. The two tests read the clock.
  unfoldable pub look : ℕ → ℕ → TtlCache T → Option (Result T)
  unfolding is_fresh fresh_err
  look now now' c =
      if is_fresh now c
      then some (ok c.value)
      else elim (fresh_err now' c) [ none ↦ none | some e ↦ some (err e) ]

module _ {T U : Type 0} (fetch : U → U × Result T) where
  -- The outcome of the upstream call, stored with the time that is read after it.
  unfoldable pub keep : ℕ → TtlCache T → U × Result T → (TtlCache T × U) × Result T
  keep now c (u, err e) = ((record c { last_err = some e; errored_at = now }, u), err e)
  keep now c (u, ok v) = ((record c { value = v; fetched_at = now; last_err = none }, u), ok v)

  -- The function under singleflight, on the cache as it is then.
  unfoldable pub refresh : (ℕ → ℕ) → TtlCache T → U → (TtlCache T × U) × Result T
  refresh clock c u = elim (look (clock 2) (clock 3) c) [
    | some r ↦ ((c, u), r)
    | none ↦ keep (clock 4) c (fetch u)
  ]

  -- `clock i` is the i-th time that the call reads.
  unfoldable pub get : (ℕ → ℕ) → TtlCache T → U → (TtlCache T × U) × Result T
  get clock c u = elim (look (clock 0) (clock 1) c) [
    | some r ↦ ((c, u), r)
    | none ↦ refresh clock c u
  ]

  -- A sequence of calls, each with its clock.
  unfoldable pub get_all : List (ℕ → ℕ) → TtlCache T → U → (TtlCache T × U) × List (Result T)
  get_all [] c u = ((c, u), [])
  get_all (clock ∷ clocks) c u =
      let ((c', u'), r) = get clock c u in let (s, rs) = get_all clocks c' u' in (s, r ∷ rs)

-- `zero` is T's zero value.
unfoldable pub invalidate : {T : Type 0} → T → TtlCache T → TtlCache T
invalidate zero c = record c { value = zero; fetched_at = 0; last_err = none; errored_at = 0 }

-- The upstream client behind a `CachedLister`; `U` is its state.
pub record Upstream (U I H : Type 0) : Type 0 where
  pub list_inbounds : U → U × Result I
  pub list_hosts : U → U × Result H
  pub get_sub_links : String → U → U × Result (List String)

pub record CachedLister (I H : Type 0) : Type 0 where
  pub inbounds : TtlCache I
  pub hosts : TtlCache H

unfoldable pub new_cached_lister : {I H : Type 0} → I → H → ℕ → CachedLister I H
new_cached_lister no_inbounds no_hosts ttl = record {
  inbounds = record {
    ttl = ttl;
    value = no_inbounds;
    fetched_at = 0;
    last_err = none;
    errored_at = 0;
  };
  hosts = record { ttl = ttl; value = no_hosts; fetched_at = 0; last_err = none; errored_at = 0 };
}

module _ {U I H : Type 0} (up : Upstream U I H) where
  unfoldable pub list_inbounds : (ℕ → ℕ) → CachedLister I H → U → (CachedLister I H × U) × Result I
  list_inbounds clock l u =
      let ((c, u'), r) = get up.list_inbounds clock l.inbounds u in
      ((record l { inbounds = c }, u'), r)

  unfoldable pub list_hosts : (ℕ → ℕ) → CachedLister I H → U → (CachedLister I H × U) × Result H
  list_hosts clock l u =
      let ((c, u'), r) = get up.list_hosts clock l.hosts u in ((record l { hosts = c }, u'), r)

  unfoldable pub get_sub_links :
      String → CachedLister I H → U → (CachedLister I H × U) × Result (List String)
  get_sub_links sub_id l u = let (u', r) = up.get_sub_links sub_id u in ((l, u'), r)

unfoldable pub invalidate_lister : {I H : Type 0} → I → H → CachedLister I H → CachedLister I H
unfolding invalidate
invalidate_lister no_inbounds no_hosts l = record {
  inbounds = invalidate no_inbounds l.inbounds;
  hosts = invalidate no_hosts l.hosts;
}
