-- ===== src/Generator/ShareLink/Forms.antt =====
-- The two forms of a shadowsocks link, and what is read from them.
use x_ui_subpage.Prelude.{
  ℕ, ◌≡◌, refl, ap, ◌∙◌, String, Option, none, some, [], Error, ok, err, ◌>>=◌, in_context, cut,
  joined, Lacks, cut-joined, cut-none, cut_last-joined, joined-Lacks,
}
use Prim.Native.Char.{char}
use x_ui_subpage.Prelude.Int.{ℤ}
use x_ui_subpage.Generator.ShareLink.{Std, standard, decode_base64_any, checked_atoi}
use x_ui_subpage.Generator.ShareLink.Shadowsocks.{
  parts_of, credentials_of, finished, without_query, unescaped, parse_shadowsocks,
  shadowsocks_context,
}
use x_ui_subpage.Generator.ShareLink.Links.{parse_share_link}

-- The numbers of '#', '@', ':' and '?'.
abbrev pub hash : ℕ
hash = 35

abbrev pub at : ℕ
at = 64

abbrev pub colon : ℕ
colon = 58

abbrev pub question_mark : ℕ
question_mark = 63

abbrev pub link_of : String → String → String
link_of body fragment = joined "ss://" (joined body (joined "#" fragment))

-- base64(method:password)@host:port#remark
abbrev pub sip002 : String → String → String → String
sip002 userinfo host_port fragment = link_of (joined userinfo (joined "@" host_port)) fragment

parse_shadowsocks-link :
    (std : Std) (body fragment : String)
    → Lacks hash body
    → parse_shadowsocks std (link_of body fragment) ≡ (
        parts_of std body (cut body "@") >>= λ parts.
        finished std (unescaped std fragment) parts.0 (without_query std parts.1 (cut parts.1 "?")))
unfolding parse_shadowsocks joined
parse_shadowsocks-link std body fragment lacks =
    rw (cut-joined (char 35 tt) body fragment lacks) refl

checked_atoi-reads :
    (std : Std) (s : String) (n : ℤ) → std.atoi s ≡ (n, none) → checked_atoi std s ≡ ok n
checked_atoi-reads std s n e =
    ap (λ (r : ℤ × Option Error). elim r.1 [ none ↦ ok r.0 | some x ↦ err x ]) e

-- From the credentials and the host with the port on, which have no parameters behind them.
finished-reads :
    (std : Std) (method password host_port host port_text remark : String) (port : ℤ)
    → Lacks colon method
    → Lacks question_mark host_port
    → std.split_host_port host_port ≡ ok (host, port_text)
    → std.atoi port_text ≡ (port, none)
    → finished std remark
        (joined method (joined ":" password))
        (without_query std host_port (cut host_port "?"))
      ≡ ok (shadowsocks_context method password host port remark [])
unfolding joined
finished-reads std method password host_port host port_text remark port lm lh split number =
    rw
      (
        cut-none (char 63 tt) host_port lh,
        cut-joined (char 58 tt) method password lm,
        split,
        in_context,
        ◌>>=◌,
        checked_atoi-reads std port_text port number,
      )
      refl

by_scheme-ss :
    (std : Std) (body fragment : String)
    → std.to_lower "ss" ≡ "ss"
    → parse_share_link std (link_of body fragment) ≡ parse_shadowsocks std (link_of body fragment)
unfolding parse_share_link cut joined
by_scheme-ss std body fragment lower = rw lower refl

parts_of-sip002 :
    (std : Std) (userinfo host_port credentials : String)
    → std.decode standard userinfo ≡ ok credentials
    → Lacks at userinfo
    → parts_of std
        (joined userinfo (joined "@" host_port))
        (cut (joined userinfo (joined "@" host_port)) "@")
      ≡ ok (credentials, host_port)
unfolding joined decode_base64_any
parts_of-sip002 std userinfo host_port credentials decoded lacks =
    rw
      (
        cut-joined (char 64 tt) userinfo host_port lacks,
        parts_of,
        credentials_of,
        decode_base64_any,
        decoded,
      )
      refl

parts_of-legacy :
    (std : Std) (body host_port credentials : String)
    → std.decode standard body ≡ ok (joined credentials (joined "@" host_port))
    → Lacks at body
    → Lacks at host_port
    → parts_of std body (cut body "@") ≡ ok (credentials, host_port)
unfolding joined decode_base64_any
parts_of-legacy std body host_port credentials decoded lacks lh =
    rw
      (
        cut-none (char 64 tt) body lacks,
        decoded,
        cut_last-joined (char 64 tt) credentials host_port lh,
      )
      refl

after_at : (s : String) → Lacks hash s → Lacks hash (joined "@" s)
unfolding joined
after_at s lacks = (refl, lacks)

-- Both forms of a shadowsocks link, the one with the encoded credentials before '@' and the one that
-- is encoded as a whole, are read back into the method, the password, the server, the port and the
-- remark that they were made of. The password may have any characters; the method has no ':', the
-- host with the port none of '#', '@' and '?', and an encoding neither '#' nor '@'. What the links
-- carry in base64 decodes, "ss" is its own lower case, and the fragment, the host with the port and
-- the port alone are readable.
pub parse_share_link-forms :
    (std : Std) (method password host_port host port_text userinfo body fragment remark : String)
    (port : ℤ)
    → std.to_lower "ss" ≡ "ss"
    → std.decode standard userinfo ≡ ok (joined method (joined ":" password))
    → std.decode standard body
      ≡ ok (joined (joined method (joined ":" password)) (joined "@" host_port))
    → std.query_unescape fragment ≡ ok remark
    → std.split_host_port host_port ≡ ok (host, port_text)
    → std.atoi port_text ≡ (port, none)
    → Lacks hash userinfo × Lacks at userinfo
    → Lacks hash body × Lacks at body
    → Lacks colon method
    → Lacks hash host_port × Lacks at host_port × Lacks question_mark host_port
    → (parse_share_link std (sip002 userinfo host_port fragment)
        ≡ ok (shadowsocks_context method password host port remark []))
      × (parse_share_link std (link_of body fragment)
          ≡ ok (shadowsocks_context method password host port remark []))
parse_share_link-forms std method password host_port host port_text userinfo body fragment remark
      port lower decoded decoded' plain split number (uh, ua) (bh, ba) lm (hh, ha, hq) =
    let credentials = joined method (joined ":" password) in
    let reads =
      finished-reads std method password host_port host port_text remark port lm hq split number in
    (
      by_scheme-ss std (joined userinfo (joined "@" host_port)) fragment lower
          ∙ parse_shadowsocks-link std (joined userinfo (joined "@" host_port)) fragment
              (joined-Lacks hash userinfo (joined "@" host_port) uh (after_at host_port hh))
          ∙ rw (parts_of-sip002 std userinfo host_port credentials decoded ua, unescaped, plain)
              reads,
      by_scheme-ss std body fragment lower
          ∙ parse_shadowsocks-link std body fragment bh
          ∙ rw (parts_of-legacy std body host_port credentials decoded' ba ha, unescaped, plain)
              reads,
    )
