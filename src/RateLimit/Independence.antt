-- ===== src/RateLimit/Independence.antt =====
-- No client's requests touch what another client is answered.
use x_ui_subpage.Prelude.{
  ℕ, ◌≡◌, refl, sym, ap, ◌∙◌, inl, inr, String, false, Bool-cases, some, List, [], ◌∷◌,
  if◌then◌else◌, ◌==◌, eq_iff, arith, Result, subst,
}
use x_ui_subpage.RateLimit.{
  Rate, Limiter, Answer, at, put, or_new, bucket_of, allow, client_ip, answer, middleware, serve,
}

-- The answers that one client gets.
abbrev pub answers_to : String → List (String × Answer) → List Answer
answers_to key [] = []
answers_to key ((k, a) ∷ served) =
    let rest = answers_to key served in if k == key then a ∷ rest else rest

-- The times of one client's requests.
abbrev pub times_of : (String → Result (String × String)) → String → List (ℕ × String) → List ℕ
times_of split key [] = []
times_of split key ((now, addr) ∷ requests) =
    let rest = times_of split key requests in
    if client_ip split addr == key then now ∷ rest else rest

module _ {B : Type 0} (rate : Rate B) where
  -- What a bucket answers that nobody else uses.
  abbrev pub alone : B → List ℕ → List Answer
  alone b [] = []
  alone b (now ∷ times) = answer (rate.allow now b).1 ∷ alone (rate.allow now b).0 times

  at-put_self : (key : String) (b : B) (ls : List (String × B)) → at key (put key b ls) ≡ some b
  unfolding at put
  at-put_self key b [] = ground (arith, eq_iff key key)
  at-put_self key b ((k, old) ∷ ls) = elim (Bool-cases (k == key)) [
    | inl hit ↦ rw (hit, hit) refl
    | inr miss ↦ rw (miss, miss) (at-put_self key b ls)
  ]

  at-put_other :
      (key other : String) (b : B) (ls : List (String × B))
      → key == other ≡ false
      → at other (put key b ls) ≡ at other ls
  unfolding at put
  at-put_other key other b [] ne = rw ne refl
  at-put_other key other b ((k, old) ∷ ls) ne = elim (Bool-cases (k == key)) [
    | inl hit ↦
        let miss : k == other ≡ false =
          ground (arith, hit, ne, eq_iff k key, eq_iff k other, eq_iff key other) in
        rw (hit, miss) refl
    | inr miss ↦ rw (miss, at-put_other key other b ls ne) refl
  ]

  bucket_of-allow_self :
      (now : ℕ) (key : String) (l : Limiter B)
      → bucket_of rate (allow rate now key l).0 key ≡ (rate.allow now (bucket_of rate l key)).0
  unfolding bucket_of allow
  bucket_of-allow_self now key l =
      ap (or_new rate l) (at-put_self key (rate.allow now (bucket_of rate l key)).0 l.limiters)

  bucket_of-allow_other :
      (now : ℕ) (key other : String) (l : Limiter B)
      → key == other ≡ false
      → bucket_of rate (allow rate now key l).0 other ≡ bucket_of rate l other
  unfolding bucket_of allow
  bucket_of-allow_other now key other l ne =
      ap (or_new rate l)
        (at-put_other key other (rate.allow now (bucket_of rate l key)).0 l.limiters ne)

  -- Whatever requests come in, a client is answered as if it were alone with its bucket: the
  -- requests of other addresses neither take its tokens nor give it any.
  pub serve-alone :
      (split : String → Result (String × String)) (key : String) (requests : List (ℕ × String))
      (l : Limiter B)
      → answers_to key (serve rate split requests l)
        ≡ alone (bucket_of rate l key) (times_of split key requests)
  unfolding serve middleware
  serve-alone split key [] l = refl
  serve-alone split key ((now, addr) ∷ requests) l =
      elim (Bool-cases (client_ip split addr == key)) [
        | inr miss ↦ rw miss (
            serve-alone split key requests (allow rate now (client_ip split addr) l).0
            ∙ ap (λ b. alone b (times_of split key requests))
                (bucket_of-allow_other now (client_ip split addr) key l miss))
        | inl hit ↦
            let same : client_ip split addr ≡ key =
              ground (arith, hit, eq_iff (client_ip split addr) key) in
            rw hit (mine same (λ l'. serve-alone split key requests l'))
      ]
    where
      mine :
          client_ip split addr ≡ key
          → ((l' : Limiter B)
              → answers_to key (serve rate split requests l')
                ≡ alone (bucket_of rate l' key) (times_of split key requests))
          → answer (allow rate now (client_ip split addr) l).1
              ∷ answers_to key
                  (serve rate split requests (allow rate now (client_ip split addr) l).0)
            ≡ answer (rate.allow now (bucket_of rate l key)).1
              ∷ alone (rate.allow now (bucket_of rate l key)).0 (times_of split key requests)
      mine same later =
          subst
            (λ x.
              answer (allow rate now x l).1
                ∷ answers_to key (serve rate split requests (allow rate now x l).0)
              ≡ answer (rate.allow now (bucket_of rate l key)).1
                ∷ alone (rate.allow now (bucket_of rate l key)).0 (times_of split key requests))
            (sym same)
            (ap (λ rest. answer (rate.allow now (bucket_of rate l key)).1 ∷ rest)
              (later (allow rate now key l).0
                ∙ ap (λ b. alone b (times_of split key requests)) (bucket_of-allow_self now key l)))
