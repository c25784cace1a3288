-- ===== src/Xui/Parse/Flexible.antt =====
-- The two encodings of an inbound's settings.
use x_ui_subpage.Prelude.{◌≡◌, refl, true, false, [], ◌∷◌, arith, Result, ok}
use x_ui_subpage.Xui.Models.{RawMessage}
use x_ui_subpage.Xui.Parse.{is_empty, is_null, is_quoted, trim_space, unmarshal_flexible}

-- A text that is neither empty, nor null, nor a JSON string, with no white space around it.
pub record IsValue (raw : RawMessage) : Type 0 where
  pub trimmed : trim_space raw ≡ raw
  pub filled : is_empty raw ≡ false
  pub something : is_null raw ≡ false
  pub bare : is_quoted raw ≡ false

quoted_lem : (s : RawMessage) → is_quoted s ≡ true → (is_empty s ≡ false) × (is_null s ≡ false)
quoted_lem [] q = cc
quoted_lem (a ∷ []) q = (refl, refl)
quoted_lem (a ∷ b ∷ []) q = (refl, refl)
quoted_lem (a ∷ b ∷ c ∷ []) q = (refl, refl)
quoted_lem (a ∷ b ∷ c ∷ d ∷ []) q = (refl, ground arith)
quoted_lem (a ∷ b ∷ c ∷ d ∷ e ∷ s) q = (refl, refl)

-- A panel that sends a JSON value, neither null nor a string and without white space around it, and
-- one that sends a JSON string which the decoder reads as the text of that value decode alike.
pub unmarshal_flexible_agrees :
    {T : Type 0} (text : RawMessage → Result RawMessage) (unmarshal : RawMessage → T → Result T)
    (value quoted : RawMessage) (out : T)
    → IsValue value
    → is_quoted (trim_space quoted) ≡ true
    → text (trim_space quoted) ≡ ok value
    → unmarshal_flexible text unmarshal quoted out ≡ unmarshal_flexible text unmarshal value out
unfolding unmarshal_flexible
unmarshal_flexible_agrees text unmarshal value quoted out v q t =
    let (filled, something) = quoted_lem (trim_space quoted) q in ground (arith, v.trimmed)
