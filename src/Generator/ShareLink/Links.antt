-- ===== src/Generator/ShareLink/Links.antt =====
-- internal/generator/tmplctx/sharelink.go: a link by its scheme; and tmplctx.go: the entries of a
-- subscriber.
use x_ui_subpage.Prelude.{
  String, Option, none, some, List, [], ◌∷◌, if◌then◌else◌, ◌==◌, Error, new, Result, ok, err, cut,
}
use x_ui_subpage.Generator.{ClientContext}
use x_ui_subpage.Generator.ShareLink.{Std, no_context, parse_uri_scheme, parse_vmess}
use x_ui_subpage.Generator.ShareLink.Shadowsocks.{parse_shadowsocks}

abbrev pub by_scheme : Std → String → Option (String × String) → Result ClientContext
by_scheme std link none = err (new "tmplctx: no scheme")
by_scheme std link (some (scheme, _)) =
    let lower = std.to_lower scheme in
    if lower == "vless"
    then parse_uri_scheme std link "vless"
    else if lower == "trojan"
    then parse_uri_scheme std link "trojan"
    else if lower == "vmess"
    then parse_vmess std link
    else if lower == "ss"
    then parse_shadowsocks std link
    else err (new "tmplctx: unsupported share-link scheme")

unfoldable pub parse_share_link : Std → String → Result ClientContext
unfolding parse_uri_scheme parse_vmess parse_shadowsocks cut
parse_share_link std link = by_scheme std link (cut link "://")

-- `Context` is the zero value where the link is not understood.
pub record Entry : Type 0 where
  pub raw : String
  pub context : ClientContext
  pub parse_err : Option Error

abbrev pub entry_of : String → Result ClientContext → Entry
entry_of link (ok client) = record { raw = link; context = client; parse_err = none }
entry_of link (err e) = record { raw = link; context = no_context; parse_err = some e }

unfoldable pub parse_entries : Std → List String → List Entry
unfolding parse_share_link
parse_entries std [] = []
parse_entries std (link ∷ links) =
    entry_of link (parse_share_link std link) ∷ parse_entries std links
