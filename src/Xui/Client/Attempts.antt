-- ===== src/Xui/Client/Attempts.antt =====
-- How many requests one call sends, and which of them gives its result.
use x_ui_subpage.Prelude.{
  ℕ, zero, suc, ◌≤◌, ◌<◌, ◌≡◌, refl, ap, ◌⊎◌, inl, inr, String, Option, none, some, arith, Error,
  Result, err,
}
use x_ui_subpage.Xui.Client.{
  Body, Request, Wire, Client, Verdict, again, done, judge, gave_up, follow, attempts, request_of,
  do_json_body,
}

-- The verdict asks for another attempt.
abbrev pub IsAgain : {T : Type 0} → Verdict T → Type 0
IsAgain v = (e : Error) × (v ≡ again e)

abbrev IsFailure : {T : Type 0} → Result T → Type 0
IsFailure r = (e : Error) × (r ≡ err e)

module _ {P T : Type 0} (wire : Wire P) (path : String) (read : String → Result T)
    (request : Request) where
  -- The panel after k requests.
  abbrev pub after : ℕ → P → P
  after zero p = p
  after (suc k) p = after k (wire.send request p).0

  -- The verdict on the request that follows k others.
  abbrev pub verdict_at : ℕ → P → Verdict T
  verdict_at k p = judge path read wire.envelope (wire.send request (after k p)).1

  -- k requests were sent, of which either all ask for another attempt and none was left, or the last
  -- one, and only that one, settles the result.
  pub record Sent (left : ℕ) (p p' : P) (r : Result T) : Type 0 where
    pub count : ℕ
    pub bounded : count ≤ left
    pub reached : p' ≡ after count p
    pub how :
        ((count ≡ left) × ((i : ℕ) → i < count → IsAgain (verdict_at i p)) × IsFailure r)
        ⊎ ((j : ℕ) × (count ≡ suc j)
            × ((i : ℕ) → i < j → IsAgain (verdict_at i p))
            × (verdict_at j p ≡ done r))

  gave_up-IsFailure : (last : Option Error) → IsFailure (gave_up path read last)
  gave_up-IsFailure none = (_, refl)
  gave_up-IsFailure (some e) = (_, refl)

  Sent-again :
      (left : ℕ) (p p' : P) (r : Result T)
      → IsAgain (verdict_at 0 p)
      → Sent left (wire.send request p).0 p' r
      → Sent (suc left) p p' r
  Sent-again left p p' r first s = record {
    count = suc s.count;
    bounded = let b = s.bounded in omega (arith, b);
    reached = s.reached;
    how = elim s.how [
      | inl (all, agains, failure) ↦ inl (ap suc all, from agains, failure)
      | inr (j, last, agains, settles) ↦ inr (suc j, ap suc last, from agains, settles)
    ];
  }
    where
      from :
          {n : ℕ}
          → ((i : ℕ) → i < n → IsAgain (verdict_at i (wire.send request p).0))
          → (i : ℕ) → i < suc n
          → IsAgain (verdict_at i p)
      from agains zero lt = first
      from agains (suc i) lt = agains i (omega (arith, lt))

  follow-Sent :
      (left : ℕ) (p : P) (rest : Error → P → P × Result T)
      → ((e : Error)
          → Sent left
              (wire.send request p).0
              (rest e (wire.send request p).0).0
              (rest e (wire.send request p).0).1)
      → (v : Verdict T) → verdict_at 0 p ≡ v
      → Sent
          (suc left)
          p
          (follow wire path read request v rest (wire.send request p).0).0
          (follow wire path read request v rest (wire.send request p).0).1
  follow-Sent left p rest ih (again e) h = Sent-again left p _ _ (e, h) (ih e)
  follow-Sent left p rest ih (done r) h = record {
    count = 1;
    bounded = omega arith;
    reached = refl;
    how = inr (0, refl, (λ i lt. absurd (omega (arith, lt))), h);
  }

  module _ (stopped : ℕ → Option Error) (running : (n : ℕ) → stopped n ≡ none) where
    attempts-Sent :
        (left n : ℕ) (last : Option Error) (p : P)
        → Sent left p
            (attempts wire path read request stopped left n last p).0
            (attempts wire path read request stopped left n last p).1
    unfolding attempts
    attempts-Sent zero n last p = record {
      count = 0;
      bounded = omega arith;
      reached = refl;
      how = inl (refl, (λ i lt. absurd (omega (arith, lt))), gave_up-IsFailure last);
    }
    attempts-Sent (suc left) n last p = rw (running n) (
        follow-Sent left p (λ e q. attempts wire path read request stopped left (suc n) (some e) q)
          (λ e. attempts-Sent left (suc n) (some e) (wire.send request p).0) (verdict_at 0 p) refl)

-- A call whose context is never cancelled sends at most `max_attempts` requests. Either it sends that
-- many, every answer asks for another attempt (an error of the transport, a body that cannot be
-- read, a status from 500 on) and the call fails, or the last request sent is the first one whose
-- answer does not ask for another attempt, and the call's result is what that answer says.
pub do_json_body-Sent :
    {P T : Type 0} (wire : Wire P) (c : Client) (stopped : ℕ → Option Error) (method path : String)
    (payload : Option Body) (read : String → Result T) (p : P)
    → ((n : ℕ) → stopped n ≡ none)
    → Sent wire path read
        (request_of c method path payload)
        c.max_attempts
        p
        (do_json_body wire c stopped method path payload read p).0
        (do_json_body wire c stopped method path payload read p).1
unfolding do_json_body
do_json_body-Sent wire c stopped method path payload read p running =
    attempts-Sent wire path read (request_of c method path payload) stopped running c.max_attempts 1
      none p
