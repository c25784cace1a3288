-- ===== src/RateLimit.antt =====
-- internal/ratelimit: one token bucket for each key, made when the key is first seen.
pub mod Independence
mod Tests
use x_ui_subpage.Prelude.{
  ℕ, String, Bool, true, false, Option, none, some, List, [], ◌∷◌, if◌then◌else◌, ◌==◌, Result, ok,
  err,
}
use x_ui_subpage.Prelude.Int.{ℤ, pos, ltb_ℤ}

-- golang.org/x/time/rate: a bucket for a number of requests in a minute and its capacity, and
-- whether it gives a token at a time.
pub record Rate (B : Type 0) : Type 0 where
  pub new_limiter : ℤ → ℤ → B
  pub allow : ℕ → B → B × Bool

pub record Limiter (B : Type 0) : Type 0 where
  pub limiters : List (String × B)
  pub requests_per_minute : ℤ
  pub burst : ℤ

pub data Answer : Type 0 where
  too_many_requests next : Answer

unfoldable pub new : {B : Type 0} → ℤ → ℤ → Limiter B
new requests_per_minute burst = record {
  limiters = [];
  requests_per_minute = requests_per_minute;
  burst = if ltb_ℤ burst (pos 1) then pos 1 else burst;
}

-- l.limiters[key]
unfoldable pub at : {B : Type 0} → String → List (String × B) → Option B
at key [] = none
at key ((k, b) ∷ limiters) = let later = at key limiters in if k == key then some b else later

-- The bucket of a key after a token was asked of it.
unfoldable pub put : {B : Type 0} → String → B → List (String × B) → List (String × B)
put key b [] = (key, b) ∷ []
put key b ((k, old) ∷ limiters) =
    let later = put key b limiters in if k == key then (k, b) ∷ limiters else (k, old) ∷ later

abbrev pub or_new : {B : Type 0} → Rate B → Limiter B → Option B → B
or_new rate l none = rate.new_limiter l.requests_per_minute l.burst
or_new rate l (some b) = b

unfoldable pub bucket_of : {B : Type 0} → Rate B → Limiter B → String → B
unfolding at
bucket_of rate l key = or_new rate l (at key l.limiters)

unfoldable pub allow : {B : Type 0} → Rate B → ℕ → String → Limiter B → Limiter B × Bool
unfolding bucket_of put
allow rate now key l =
    let asked = rate.allow now (bucket_of rate l key) in
    (record l { limiters = put key asked.0 l.limiters }, asked.1)

-- `split_host_port` is net.SplitHostPort.
unfoldable pub client_ip : (String → Result (String × String)) → String → String
client_ip split_host_port remote_addr = elim (split_host_port remote_addr) [
  | ok parts ↦ parts.0
  | err _ ↦ remote_addr
]

abbrev pub answer : Bool → Answer
answer true = next
answer false = too_many_requests

unfoldable pub middleware :
    {B : Type 0}
    → Rate B
    → (String → Result (String × String))
    → ℕ
    → String
    → Limiter B
    → Limiter B × Answer
unfolding allow client_ip
middleware rate split_host_port now remote_addr l =
    let asked = allow rate now (client_ip split_host_port remote_addr) l in
    (asked.0, answer asked.1)

-- The requests that come in, each with its time and address, one after the other.
unfoldable pub serve :
    {B : Type 0}
    → Rate B
    → (String → Result (String × String))
    → List (ℕ × String)
    → Limiter B
    → List (String × Answer)
unfolding middleware
serve rate split_host_port [] l = []
serve rate split_host_port ((now, remote_addr) ∷ requests) l =
    let served = middleware rate split_host_port now remote_addr l in
    (client_ip split_host_port remote_addr, served.1) ∷ serve rate split_host_port requests served.0
