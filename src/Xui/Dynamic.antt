-- ===== src/Xui/Dynamic.antt =====
-- internal/xui/dynamic.go: the client that is rebuilt when the settings row changes.
pub mod Coherence
mod Tests
use x_ui_subpage.Prelude.{
  ℕ, String, Bool, true, false, Option, none, some, List, if◌then◌else◌, eqb, Error, new, wrap,
  Result, ok, err, Fault,
}
use x_ui_subpage.Xui.Models.{Inbound, HostGroup, ManagedClient}
use x_ui_subpage.Xui.Client.{Wire, Client}
use x_ui_subpage.Xui.Client

pub record DynamicClient : Type 0 where
  pub current : Option Client
  pub loaded_at : ℕ

abbrev pub new_dynamic : DynamicClient
new_dynamic = record { current = none; loaded_at = 0 }

-- What a call reads from the database: the failure of the query for `updated_at`, the row's stamp if
-- there is a row, and the client that the settings make (`config.LoadFromDB`, then `New`).
pub record Settings : Type 0 where
  pub fault : Fault
  pub updated_at : Option ℕ
  pub load : Result Client

-- A missing row leaves the stamp 0.
abbrev pub stamp : Option ℕ → ℕ
stamp none = 0
stamp (some t) = t

-- d.current != nil && updatedAt == d.loadedAt
abbrev pub fresh : ℕ → DynamicClient → Option Client
fresh updated_at d = elim d.current [
  | none ↦ none
  | some c ↦ if eqb updated_at d.loaded_at then some c else none
]

abbrev pub rebuild : ℕ → DynamicClient → Result Client → DynamicClient × Result Client
rebuild updated_at d (err e) = (d, err (wrap "xui: reload settings" e))
rebuild updated_at d (ok c) = (record { current = some c; loaded_at = updated_at }, ok c)

-- Under the write lock, on the state that is found there.
abbrev pub locked :
    ℕ → Option Client → DynamicClient → Result Client → DynamicClient × Result Client
locked updated_at (some c) d load = (d, ok c)
locked updated_at none d load = rebuild updated_at d load

abbrev pub unlocked :
    ℕ → Option Client → DynamicClient → Result Client → DynamicClient × Result Client
unlocked updated_at (some c) d load = (d, ok c)
unlocked updated_at none d load = locked updated_at (fresh updated_at d) d load

abbrev pub queried :
    Fault → ℕ → DynamicClient → DynamicClient → Result Client → DynamicClient × Result Client
queried (some cause) updated_at seen d load =
    (d, err (wrap "xui: query settings updated_at" (new cause)))
queried none updated_at seen d load = unlocked updated_at (fresh updated_at seen) d load

-- `seen` is the state read under the read lock, `d` the one from there on: another call may have
-- rebuilt the client in between.
unfoldable pub client : Settings → DynamicClient → DynamicClient → DynamicClient × Result Client
client s seen d = queried s.fault (stamp s.updated_at) seen d s.load

module _ {P : Type 0} (wire : Wire P) (s : Settings) (stopped : ℕ → Option Error) where
  abbrev pub read_with :
      {T : Type 0}
      → (Client → P → P × Result T)
      → P
      → DynamicClient × Result Client
      → (DynamicClient × P) × Result T
  read_with call p (d, err e) = ((d, p), err e)
  read_with call p (d, ok c) = let (q, r) = call c p in ((d, q), r)

  abbrev pub write_with :
      (Client → P → P × Option Error)
      → P
      → DynamicClient × Result Client
      → (DynamicClient × P) × Option Error
  write_with call p (d, err e) = ((d, p), some e)
  write_with call p (d, ok c) = let (q, r) = call c p in ((d, q), r)

  unfoldable pub list_inbounds : DynamicClient → P → (DynamicClient × P) × Result (List Inbound)
  unfolding client
  list_inbounds d p = read_with (λ c. Client.list_inbounds wire c stopped) p (client s d d)

  unfoldable pub list_hosts : DynamicClient → P → (DynamicClient × P) × Result (List HostGroup)
  unfolding client
  list_hosts d p = read_with (λ c. Client.list_hosts wire c stopped) p (client s d d)

  unfoldable pub get_sub_links :
      String → DynamicClient → P → (DynamicClient × P) × Result (List String)
  unfolding client
  get_sub_links sub_id d p =
      read_with (λ c. Client.get_sub_links wire c stopped sub_id) p (client s d d)

  unfoldable pub get_client :
      String → DynamicClient → P → (DynamicClient × P) × Result (Option ManagedClient)
  unfolding client
  get_client email d p = read_with (λ c. Client.get_client wire c stopped email) p (client s d d)

  unfoldable pub add_client :
      ManagedClient → List ℕ → DynamicClient → P → (DynamicClient × P) × Option Error
  unfolding client
  add_client m inbound_ids d p =
      write_with (λ c. Client.add_client wire c stopped m inbound_ids) p (client s d d)

  unfoldable pub attach_client :
      String → List ℕ → DynamicClient → P → (DynamicClient × P) × Option Error
  unfolding client
  attach_client email inbound_ids d p =
      write_with (λ c. Client.attach_client wire c stopped email inbound_ids) p (client s d d)

  unfoldable pub update_client :
      ManagedClient → DynamicClient → P → (DynamicClient × P) × Option Error
  unfolding client
  update_client m d p = write_with (λ c. Client.update_client wire c stopped m) p (client s d d)

  unfoldable pub detach_client :
      String → List ℕ → DynamicClient → P → (DynamicClient × P) × Option Error
  unfolding client
  detach_client email inbound_ids d p =
      write_with (λ c. Client.detach_client wire c stopped email inbound_ids) p (client s d d)

  unfoldable pub delete_client : String → DynamicClient → P → (DynamicClient × P) × Option Error
  unfolding client
  delete_client email d p =
      write_with (λ c. Client.delete_client wire c stopped email) p (client s d d)

  unfoldable pub reset_client_traffic :
      String → DynamicClient → P → (DynamicClient × P) × Option Error
  unfolding client
  reset_client_traffic email d p =
      write_with (λ c. Client.reset_client_traffic wire c stopped email) p (client s d d)
