-- ===== src/ConnLink.antt =====
-- internal/connlink: the views of a subscriber's direct links, from the entries of the panel's links.
use x_ui_subpage.Prelude.{
  ℕ, suc, ◌≡◌, refl, ap, ◌∙◌, Result, ok, err, String, Option, none, some, List, [], ◌∷◌, Error,
  concat,
}
use x_ui_subpage.Generator.{ClientContext}
use x_ui_subpage.Generator.ShareLink.{Std}
use x_ui_subpage.Generator.ShareLink.Links.{Entry, entry_of, parse_entries, parse_share_link}

pub record View : Type 0 where
  pub index : ℕ
  pub tag : String
  pub protocol : String
  pub link : String
  pub qr_png_url : String
  pub qr_svg_url : String
  pub config_url : String

-- `itoa` prints an index.
abbrev pub url : (ℕ → String) → String → ℕ → String → String
url itoa sub_id i file = concat ("/sub/" ∷ sub_id ∷ "/link/" ∷ itoa i ∷ file ∷ [])

abbrev pub bare : (ℕ → String) → String → ℕ → String → View
bare itoa sub_id i raw = record {
  index = i;
  tag = "";
  protocol = "";
  link = raw;
  qr_png_url = url itoa sub_id i "/qr.png";
  qr_svg_url = url itoa sub_id i "/qr.svg";
  config_url = "";
}

abbrev pub view_of : (ℕ → String) → String → ℕ → Entry → View
view_of itoa sub_id i e = elim e.parse_err [
  | some _ ↦ bare itoa sub_id i e.raw
  | none ↦ record (bare itoa sub_id i e.raw) {
    tag = e.context.remark;
    protocol = e.context.protocol;
    config_url = url itoa sub_id i "/config.json";
  }
]

-- The loop, whose index starts at 0.
unfoldable pub views_from : (ℕ → String) → String → ℕ → List Entry → List View
views_from itoa sub_id i [] = []
views_from itoa sub_id i (e ∷ entries) =
    view_of itoa sub_id i e ∷ views_from itoa sub_id (suc i) entries

unfoldable pub build : (ℕ → String) → String → List Entry → List View
unfolding views_from
build itoa sub_id entries = views_from itoa sub_id 0 entries

-- The links that the views show.
abbrev pub links_of : List View → List String
links_of [] = []
links_of (v ∷ views) = v.link ∷ links_of views

entry_of-raw : (link : String) (r : Result ClientContext) → (entry_of link r).raw ≡ link
entry_of-raw link (ok client) = refl
entry_of-raw link (err e) = refl

view_of-link :
    (itoa : ℕ → String) (sub_id : String) (i : ℕ) (e : Entry)
    → (view_of itoa sub_id i e).link ≡ e.raw
view_of-link itoa sub_id i e = by_error e.parse_err refl
  where
    by_error : (o : Option Error) → e.parse_err ≡ o → (view_of itoa sub_id i e).link ≡ e.raw
    by_error none q = rw q refl
    by_error (some x) q = rw q refl

views_from-links :
    (std : Std) (itoa : ℕ → String) (sub_id : String) (i : ℕ) (links : List String)
    → links_of (views_from itoa sub_id i (parse_entries std links)) ≡ links
unfolding views_from parse_entries
views_from-links std itoa sub_id i [] = refl
views_from-links std itoa sub_id i (link ∷ links) =
    let e = entry_of link (parse_share_link std link) in
    ap (λ x. x ∷ links_of (views_from itoa sub_id (suc i) (parse_entries std links)))
      (view_of-link itoa sub_id i e ∙ entry_of-raw link (parse_share_link std link))
    ∙ ap (λ xs. link ∷ xs) (views_from-links std itoa sub_id (suc i) links)

-- Whether or not its links are understood, every link of a subscriber is shown, verbatim and in the
-- panel's order.
build-links :
    (std : Std) (itoa : ℕ → String) (sub_id : String) (links : List String)
    → links_of (build itoa sub_id (parse_entries std links)) ≡ links
unfolding build
build-links std itoa sub_id links = views_from-links std itoa sub_id 0 links
