-- ===== src/Prelude/Errors.antt =====
-- Go's error values: the sentinels that the stores export and compare with, `errors.New`, and
-- `fmt.Errorf` with `%w`. A fallible function returns a `Result`; a function whose only result is
-- an error returns an `Option Error`. `Faults` says, for each call that an operation makes on the
-- database engine, in order, the message of the failure that the engine reports, if any.
use Prim.Native.Nat.{ℕ}
use Prim.Native.String
use Prim.Native.String.{String}
use mathlib.Core.Path.{◌≡◌, refl}
use mathlib.Core.Bool.{Bool, true, false}
use mathlib.Core.Option.{Option, none, some}
use native.Mathlib.Omega.{arith}

pub data Error : Type 0 where
  no_rows not_found duplicate invalid_credentials session_not_found : Error
  new : String → Error
  wrap : String → Error → Error

-- The text of `err.Error()`; the sentinels of all packages share one constructor here, so that the
-- name of the package is left out.
unfoldable pub message : Error → String
message no_rows = "sql: no rows in result set"
message not_found = "not found"
message duplicate = "username or sub_id already in use"
message invalid_credentials = "invalid credentials"
message session_not_found = "session not found"
message (new s) = s
message (wrap context e) = String.◌++◌ context (String.◌++◌ ": " (message e))

-- `errors.Is(err, sql.ErrNoRows)`
unfoldable pub is_no_rows : Error → Bool
is_no_rows no_rows = true
is_no_rows (wrap context e) = is_no_rows e
is_no_rows _ = false

pub data Result {ℓ} (T : Type ℓ) : Type ℓ where
  err : Error → Result T
  ok : T → Result T

infixl 5 ◌>>=◌ ◌>>◌
abbrev pub ◌>>=◌ {ℓ κ} : {X : Type ℓ} {Y : Type κ} → Result X → (X → Result Y) → Result Y
err e >>= next = err e
ok x >>= next = next x

abbrev pub ◌>>◌ {ℓ} : {B : Type ℓ} → Result (Unit {0}) → Result B → Result B
m >> k = m >>= λ _. k

abbrev pub Fault : Type 0
Fault = Option String

abbrev pub Faults : Type 0
Faults = ℕ → Fault

-- A call of the engine that may fail, with the context that the error is wrapped in.
abbrev pub call : String → Fault → Result (Unit {0})
call context none = ok tt
call context (some cause) = err (wrap context (new cause))

-- An operation that runs in one transaction: an error leaves the state as it was.
abbrev pub commit {ℓ κ} : {S : Type ℓ} {A : Type κ} → S → Result (S × A) → S × Result A
commit s (ok (s', a)) = (s', ok a)
commit s (err e) = (s, err e)

-- A chain that ends well: its first link gave some result, on which the second one ended well.
pub bind-eq-ok {ℓ κ} :
    {X : Type ℓ} {Y : Type κ} (first_link : Result X) (next : X → Result Y) {y : Y}
    → first_link >>= next ≡ ok y
    → (x : X) × (first_link ≡ ok x) × (next x ≡ ok y)
bind-eq-ok (err _) next impossible = cc
bind-eq-ok (ok x) next rest = (x, refl, rest)

pub commit-eq-ok {ℓ κ} :
    {S : Type ℓ} {A : Type κ} (s : S) (r : Result (S × A)) {s' : S} {a : A}
    → commit s r ≡ (s', ok a)
    → r ≡ ok (s', a)
commit-eq-ok s (ok (s', a)) h = ground arith
commit-eq-ok s (err e) h = ground arith

pub commit-eq-err {ℓ κ} :
    {S : Type ℓ} {A : Type κ} (s : S) (r : Result (S × A)) {e : Error}
    → (commit s r).1 ≡ err e
    → (commit s r).0 ≡ s
commit-eq-err s (ok (s', a)) h = cc
commit-eq-err s (err e) h = refl

pub ok-injective {ℓ} : {A : Type ℓ} {a b : A} → ok a ≡ ok b → a ≡ b
ok-injective h = cc

-- What holds before a transaction and after its success holds after it.
pub commit_inv {ℓ κ μ} :
    {S : Type ℓ} {A : Type κ} (Q : S → Type μ) (s : S) (r : Result (S × A))
    → Q s
    → ((s' : S) (a : A) → r ≡ ok (s', a) → Q s')
    → Q (commit s r).0
commit_inv Q s (ok (s', a)) q step = step s' a refl
commit_inv Q s (err e) q step = q

-- `fmt.Errorf` around an error.
abbrev pub in_context {ℓ} : {A : Type ℓ} → String → Result A → Result A
in_context context (ok a) = ok a
in_context context (err e) = err (wrap context e)

pub in_context-eq-ok :
    {A : Type 0} (context : String) (r : Result A) {a : A} → in_context context r ≡ ok a → r ≡ ok a
in_context-eq-ok context (ok b) q = q
in_context-eq-ok context (err x) q = cc
