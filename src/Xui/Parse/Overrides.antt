-- ===== src/Xui/Parse/Overrides.antt =====
-- What a host group may change of a client's connection.
use x_ui_subpage.Prelude.{ℕ, String, ◌≡◌, refl, ap, List, [], ◌∷◌, arith}
use x_ui_subpage.Xui.Models.{HostGroup}
use x_ui_subpage.Domain.{MatchedClient}
use x_ui_subpage.Xui.Parse.{
  Std, override, override_security, override_alpn, first_non_zero, parse_host_address, host_address,
  apply_host,
}

override_idempotent : (old new : String) → override (override old new) new ≡ override old new
override_idempotent old new = ground arith

override_security_idempotent :
    (old new : String)
    → override_security (override_security old new) new ≡ override_security old new
override_security_idempotent old new = ground arith

override_alpn_idempotent :
    (old new : List String) → override_alpn (override_alpn old new) new ≡ override_alpn old new
override_alpn_idempotent old [] = refl
override_alpn_idempotent old (x ∷ xs) = refl

module _ (std : Std) where
  parse_host_address_again :
      (entry : String) (host_port port : ℕ)
      → parse_host_address std entry (
          first_non_zero host_port (parse_host_address std entry (first_non_zero host_port port)).1)
        ≡ parse_host_address std entry (first_non_zero host_port port)
  unfolding parse_host_address
  parse_host_address_again entry host_port port = ground arith

  host_address_again :
      (hosts : List String) (host_port : ℕ) (server : String) (port : ℕ)
      → host_address std hosts host_port
          (host_address std hosts host_port server port).0
          (host_address std hosts host_port server port).1
        ≡ host_address std hosts host_port server port
  unfolding host_address
  host_address_again [] host_port server port = refl
  host_address_again (entry ∷ hosts) host_port server port =
      parse_host_address_again entry host_port port

  apply_host_idempotent :
      (mc : MatchedClient) (host : HostGroup)
      → apply_host std (apply_host std mc host) host ≡ apply_host std mc host
  unfolding apply_host
  apply_host_idempotent mc host =
      let address = host_address_again host.hosts host.port mc.server mc.port in
      cc (
        ap (λ (a : String × ℕ). a.0) address,
        ap (λ (a : String × ℕ). a.1) address,
        override_security_idempotent mc.stream.security host.security,
        override_idempotent mc.stream.tls.sni host.sni,
        override_alpn_idempotent mc.stream.tls.alpn host.alpn,
        override_idempotent mc.stream.tls.fingerprint host.fingerprint,
        override_idempotent mc.stream.transport.path host.path,
        override_idempotent mc.stream.transport.host host.host_header,
      )

  -- A host never touches Reality's keys, the inbound's identity or the account, and applying it a
  -- second time changes nothing.
  pub apply_host_lem :
      (mc : MatchedClient) (host : HostGroup)
      → (apply_host std (apply_host std mc host) host ≡ apply_host std mc host)
        × ((apply_host std mc host).stream.tls.public_key ≡ mc.stream.tls.public_key)
        × ((apply_host std mc host).stream.tls.short_id ≡ mc.stream.tls.short_id)
        × ((apply_host std mc host).stream.tls.spider_x ≡ mc.stream.tls.spider_x)
        × ((apply_host std mc host).inbound_id ≡ mc.inbound_id)
        × ((apply_host std mc host).protocol ≡ mc.protocol)
        × ((apply_host std mc host).client ≡ mc.client)
  unfolding apply_host
  apply_host_lem mc host = (apply_host_idempotent mc host, refl, refl, refl, refl, refl, refl)
