-- ===== src/Cii/IssueDate.antt =====
-- packages/facturx/src/generate/cii.ts and extract/cii.ts: a date is written in the format 102 and read
-- back as it was.
use validateur_facturx.Common.{ℕ, ◌≡◌, refl, arith, true, false, [], ◌∷◌, some, ◌==◌, All}
use validateur_facturx.Common.Text.{Text, codes, trim, trim_start, is_space, is_digit}
use validateur_facturx.Money.Digits.{IsDigit}
use validateur_facturx.Money.RoundTrip.{trim-Solid, digits-Solid}
use validateur_facturx.DraftCheck.Dates.{is_iso_date}
use validateur_facturx.DraftCheck.DateOrder.{iso-IsDashed}
use validateur_facturx.Xml.{nodes, replace_char, sanitise_text}
use validateur_facturx.Cii.Values.{
  XmlValue, str, field, no_field, child, get_field, text_of, attr_of, attr_value,
}
use validateur_facturx.Cii.Read.{parse_cii_date, convert_date, dashed_date}
use validateur_facturx.Cii.Write.{date_node, cii_date}
use validateur_facturx.Cii.View.{
  view_node, attr_fields, add_field, local_name, read_text, read_attr, plain_or, unix_newlines,
}
use validateur_facturx.Cii.Amounts.{digits-IsPrinted, printed-kept, printed-one_line}

read_text-digits : (s : Text) → All IsDigit s → read_text s ≡ s
unfolding read_text
read_text-digits s h =
    let p = digits-IsPrinted s h in
    rw (printed-kept s p, printed-one_line s p) (trim-Solid s (digits-Solid s h))

read_attr-102 : read_attr (codes "102") ≡ codes "102"
unfolding read_attr replace_char sanitise_text unix_newlines trim trim_start is_space
read_attr-102 = refl

trim-digits : (s : Text) → All IsDigit s → trim s ≡ s
trim-digits s h = trim-Solid s (digits-Solid s h)

abbrev date_value : Text → Text → XmlValue
date_value compact format =
    plain_or (read_text compact) (field (codes "@_format") (str (read_attr format)) no_field)

-- The eight digits of a date with its format.
read_compact :
    (a b c d f g i j : ℕ)
    → All IsDigit (a ∷ b ∷ c ∷ d ∷ f ∷ g ∷ i ∷ j ∷ [])
    → let value = date_value (a ∷ b ∷ c ∷ d ∷ f ∷ g ∷ i ∷ j ∷ []) (codes "102") in
      convert_date (text_of value) (attr_of value (codes "format"))
      ≡ some (a ∷ b ∷ c ∷ d ∷ b'-' ∷ f ∷ g ∷ b'-' ∷ i ∷ j ∷ [])
unfolding text_of attr_of attr_value get_field convert_date dashed_date
read_compact a b c d f g i j h =
    let compact = a ∷ b ∷ c ∷ d ∷ f ∷ g ∷ i ∷ j ∷ [] in
    let (da, (db, (dc, (dd, (df, (dg, (di, (dj, u)))))))) = h in
    rw
      (
        read_text-digits compact h,
        trim-digits compact h,
        read_attr-102,
        trim-digits (codes "102") (refl, (refl, (refl, tt))),
        da,
        db,
        dc,
        dd,
        df,
        dg,
        di,
        dj,
      )
      refl

not_dash : (c : ℕ) → is_digit c ≡ true → (c == b'-') ≡ false
not_dash c h = ground arith

read_written :
    (name : Text) (a b c d f g i j : ℕ)
    → All IsDigit (a ∷ b ∷ c ∷ d ∷ f ∷ g ∷ i ∷ j ∷ [])
    → let s = a ∷ b ∷ c ∷ d ∷ b'-' ∷ f ∷ g ∷ b'-' ∷ i ∷ j ∷ [] in
      parse_cii_date (some (view_node (date_node name s))) ≡ some s
unfolding parse_cii_date date_node view_node nodes add_field attr_fields local_name child get_field
    cii_date
read_written name a b c d f g i j h =
    let (da, (db, (dc, (dd, (df, (dg, (di, (dj, u)))))))) = h in
    rw
      (
        not_dash a da,
        not_dash b db,
        not_dash c dc,
        not_dash d dd,
        not_dash f df,
        not_dash g dg,
        not_dash i di,
        not_dash j dj,
      )
      (read_compact a b c d f g i j h)

-- A date written and read back.
pub parse_cii_date-date_node :
    (name s : Text)
    → is_iso_date s ≡ true
    → parse_cii_date (some (view_node (date_node name s))) ≡ some s
parse_cii_date-date_node name s iso =
    let r = iso-IsDashed s iso in
    rw r.same (read_written name r.a r.b r.c r.d r.f r.g r.i r.j r.digits)
