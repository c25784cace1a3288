-- ===== src/Sync/Worker/Dispatch.antt =====
-- Assigning a client on a panel that refuses to create a client twice.
use x_ui_subpage.Prelude.{
  ℕ, String, ◌≡◌, ◌≢◌, ap, Bool, true, false, none, some, List, [], ◌∷◌, Option, Result, ok, err,
}
use x_ui_subpage.Xui.Models.{ManagedClient}
use x_ui_subpage.Sync.Store.{Job, assign}
use x_ui_subpage.Sync.Worker.{Writer, to_managed_client, assign_found, dispatch}

-- The panel's documented behaviour, in terms of which clients exist and which inbounds they are
-- attached to. Creating a client that exists is refused. A call that reports an error changes
-- nothing.
pub record PanelLaws {P : Type 0} (w : Writer P) : Type 1 where
  pub exists_on : P → String → Bool
  pub attached : P → String → ℕ → Bool
  pub get_client_reads : (email : String) (p : P) → (w.get_client email p).0 ≡ p
  pub get_client_absent :
      (email : String) (p : P) → (w.get_client email p).1 ≡ ok none → exists_on p email ≡ false
  pub get_client_present :
      (email : String) (p : P) (c : ManagedClient)
      → (w.get_client email p).1 ≡ ok (some c)
      → exists_on p email ≡ true
  pub add_client_attaches :
      (c : ManagedClient) (b : ℕ) (p : P)
      → (w.add_client c (b ∷ []) p).1 ≡ none
      → attached (w.add_client c (b ∷ []) p).0 c.email b ≡ true
  pub add_client_refuses :
      (c : ManagedClient) (bs : List ℕ) (p : P)
      → exists_on p c.email ≡ true
      → (w.add_client c bs p).1 ≢ none
  pub attach_client_attaches :
      (email : String) (b : ℕ) (p : P)
      → (w.attach_client email (b ∷ []) p).1 ≡ none
      → attached (w.attach_client email (b ∷ []) p).0 email b ≡ true

-- The panel answers every call that its rules allow.
pub record IsReliable {P : Type 0} (w : Writer P) (laws : PanelLaws w) : Type 0 where
  pub get_client_answers :
      (email : String) (p : P) → (o : Option ManagedClient) × ((w.get_client email p).1 ≡ ok o)
  pub add_client_accepts :
      (c : ManagedClient) (b : ℕ) (p : P)
      → laws.exists_on p c.email ≡ false
      → (w.add_client c (b ∷ []) p).1 ≡ none
  pub attach_client_accepts :
      (email : String) (b : ℕ) (p : P)
      → laws.exists_on p email ≡ true
      → (w.attach_client email (b ∷ []) p).1 ≡ none

module _ {P : Type 0} (w : Writer P) (laws : PanelLaws w) where
  assign_found_attaches :
      (j : Job) (found : P × Result (Option ManagedClient))
      → (assign_found w j found).1 ≡ none
      → laws.attached (assign_found w j found).0 j.payload.email j.inbound_id ≡ true
  unfolding assign_found
  assign_found_attaches j (p, err e) h = cc
  assign_found_attaches j (p, ok (some c)) h =
      laws.attach_client_attaches j.payload.email j.inbound_id p h
  assign_found_attaches j (p, ok none) h =
      laws.add_client_attaches (to_managed_client j.payload) j.inbound_id p h

  -- On a panel that keeps the rules above: when dispatching an assignment reports no error, the client
  -- is attached to the job's inbound.
  pub dispatch-attached :
      (j : Job) (p : P)
      → j.op ≡ assign
      → (dispatch w j p).1 ≡ none
      → laws.attached (dispatch w j p).0 j.payload.email j.inbound_id ≡ true
  unfolding dispatch
  dispatch-attached j p e = rw e (assign_found_attaches j (w.get_client j.payload.email p))

  module _ (reliable : IsReliable w laws) where
    assign_found_accepted :
        (j : Job) (p q : P) (o : Option ManagedClient)
        → q ≡ p
        → (w.get_client j.payload.email p).1 ≡ ok o
        → (assign_found w j (q, ok o)).1 ≡ none
    unfolding assign_found
    assign_found_accepted j p q none e h = rw e (
        reliable.add_client_accepts (to_managed_client j.payload) j.inbound_id p
          (laws.get_client_absent j.payload.email p h))
    assign_found_accepted j p q (some c) e h = rw e (
        reliable.attach_client_accepts j.payload.email j.inbound_id p
          (laws.get_client_present j.payload.email p c h))

    dispatch-accepted : (j : Job) (p : P) → j.op ≡ assign → (dispatch w j p).1 ≡ none
    unfolding dispatch
    dispatch-accepted j p e =
        let (o, h) = reliable.get_client_answers j.payload.email p in
        rw e (
          rw
            (ap
              (λ (r : Result (Option ManagedClient)).
                (assign_found w j ((w.get_client j.payload.email p).0, r)).1)
              h)
            (assign_found_accepted j p (w.get_client j.payload.email p).0 o
              (laws.get_client_reads j.payload.email p) h))

    -- On a panel that answers every call which its rules allow, dispatching an assignment reports no
    -- error and leaves the client attached to the job's inbound, whether or not the client exists
    -- already, though creating an existing client is refused.
    pub dispatch-attaches :
        (j : Job) (p : P)
        → j.op ≡ assign
        → ((dispatch w j p).1 ≡ none)
          × (laws.attached (dispatch w j p).0 j.payload.email j.inbound_id ≡ true)
    dispatch-attaches j p e =
        (dispatch-accepted j p e, dispatch-attached j p e (dispatch-accepted j p e))
