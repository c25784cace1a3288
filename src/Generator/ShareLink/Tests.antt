-- ===== src/Generator/ShareLink/Tests.antt =====
-- The two forms of a link with the method "m", the password "p:q", the host "h" and the port 1.
use x_ui_subpage.Prelude.{
  ◌≡◌, refl, none, some, [], ◌∷◌, if◌then◌else◌, ◌==◌, new, ok, err, joined, lacks, lacks-Lacks,
}
use x_ui_subpage.Prelude.Int.{pos}
use x_ui_subpage.Generator.ShareLink.{Std, standard, text, other, null}
use x_ui_subpage.Generator.ShareLink.Shadowsocks.{shadowsocks_context}
use x_ui_subpage.Generator.ShareLink.Links.{parse_share_link}
use x_ui_subpage.Generator.ShareLink.Forms.{
  hash, at, colon, question_mark, sip002, link_of, parse_share_link-forms,
}

abbrev std : Std
std = record {
  to_lower = λ s. if s == "SS" then "ss" else s;
  equal_fold = λ s t. s == t;
  parse_url = λ _. ok (record {
    username = "id";
    hostname = "h";
    port = "1";
    fragment = "de";
    query = ("security", "tls") ∷ ("sni", "a.example") ∷ [];
  });
  query_unescape = λ s. ok s;
  parse_query = λ _. err (new "invalid");
  split_host_port = λ s. if s == "h:1" then ok ("h", "1") else err (new "missing port");
  atoi = λ s. if s == "1" then (pos 1, none) else (pos 0, some (new "invalid syntax"));
  decode = λ encoding s.
      if s == "bTpwOnE="
      then ok "m:p:q"
      else if s == "bTpwOnFAaDox"
      then ok "m:p:q@h:1"
      else err (new "illegal base64");
  unmarshal = λ _. ok (("ps", text "nl") ∷ ("port", other "1") ∷ ("net", null) ∷ []);
}

decodes : std.decode standard "bTpwOnE=" ≡ ok (joined "m" (joined ":" "p:q"))
unfolding joined
decodes = refl

decodes_whole :
    std.decode standard "bTpwOnFAaDox"
    ≡ ok (joined (joined "m" (joined ":" "p:q")) (joined "@" "h:1"))
unfolding joined
decodes_whole = refl

parse_share_link-forms_example :
    (parse_share_link std (sip002 "bTpwOnE=" "h:1" "de")
      ≡ ok (shadowsocks_context "m" "p:q" "h" (pos 1) "de" []))
    × (parse_share_link std (link_of "bTpwOnFAaDox" "de")
        ≡ ok (shadowsocks_context "m" "p:q" "h" (pos 1) "de" []))
unfolding lacks
parse_share_link-forms_example =
    parse_share_link-forms std "m" "p:q" "h:1" "h" "1" "bTpwOnE=" "bTpwOnFAaDox" "de" "de" (pos 1)
      refl decodes decodes_whole refl refl refl
      (lacks-Lacks hash "bTpwOnE=" refl, lacks-Lacks at "bTpwOnE=" refl)
      (lacks-Lacks hash "bTpwOnFAaDox" refl, lacks-Lacks at "bTpwOnFAaDox" refl)
      (lacks-Lacks colon "m" refl)
      (lacks-Lacks hash "h:1" refl, lacks-Lacks at "h:1" refl, lacks-Lacks question_mark "h:1" refl)

-- A scheme in upper case is accepted, but is not taken off: it ends up in the method.
upper_case :
    parse_share_link std "SS://bTpwOnE=@h:1#de"
    ≡ ok (shadowsocks_context "SS" "//bTpwOnE=" "h" (pos 1) "de" [])
unfolding parse_share_link
upper_case = refl
