-- ===== src/Cii/Amounts.antt =====
-- packages/facturx/src/generate/cii.ts and extract/cii.ts: a printed amount passes through the XML as it is.
use validateur_facturx.Common.{
  ℕ, ◌-◌, ◌≡◌, ◌≢◌, ◌≤◌, sym, refl, ap, ◌∙◌, arith, Bool, true, false, [], ◌∷◌, ◌++◌, Option, none,
  some, ◌==◌, length, take, drop, All, All-append, All-take, All-drop, Bool-cases, inl, inr,
}
use validateur_facturx.Common.Int.{is_neg}
use validateur_facturx.Common.Text.{Text}
use validateur_facturx.Money.{Decimal, rescale, monetary_scale}
use validateur_facturx.Money.Digits.{IsDigit}
use validateur_facturx.Money.Literal.{format, point, sign_text, parse_decimal}
use validateur_facturx.Money.RoundTrip.{
  digits_of, digits_of-digits, format_lem, trim-format, parse_decimal-format,
}
use validateur_facturx.Xml.{is_xml_char, sanitise_text}
use validateur_facturx.Cii.{non_empty, money}
use validateur_facturx.Cii.View.{read_text, unix_newlines}

-- A digit, the point or the minus sign.
abbrev IsPrinted : ℕ → Type 0
IsPrinted c = (45 ≤ c) × (c ≤ 57)

pub digits-IsPrinted : (s : Text) → All IsDigit s → All IsPrinted s
digits-IsPrinted [] h = tt
digits-IsPrinted (c ∷ s) (p, h) = (ground (arith, p), digits-IsPrinted s h)

point-IsPrinted :
    (digits : Text) (scale : ℕ) → All IsDigit digits → All IsPrinted (point digits scale)
unfolding point
point-IsPrinted digits scale h = elim (Bool-cases (scale == 0)) [
  | inl whole ↦ rw whole (digits-IsPrinted digits h)
  | inr pointed ↦
      let cut = length digits - scale in
      rw pointed (
        All-append IsPrinted (take cut digits) (b'.' ∷ drop cut digits)
          (digits-IsPrinted _ (All-take _ cut digits h))
          (omega arith, digits-IsPrinted _ (All-drop _ cut digits h)))
]

sign-IsPrinted :
    (negative : Bool) (s : Text) → All IsPrinted s → All IsPrinted (sign_text negative ++ s)
sign-IsPrinted true s h = (omega arith, h)
sign-IsPrinted false s h = h

format-IsPrinted : (d : Decimal) → All IsPrinted (format d)
format-IsPrinted d = rw (format_lem d) (
    sign-IsPrinted (is_neg d.value) (point (digits_of d) d.scale)
      (point-IsPrinted (digits_of d) d.scale (digits_of-digits d)))

pub printed-kept : (s : Text) → All IsPrinted s → sanitise_text s ≡ s
unfolding sanitise_text
printed-kept [] h = refl
printed-kept (c ∷ s) (p, h) =
    let kept : is_xml_char c ≡ true = ground arith in rw kept (ap (λ t. c ∷ t) (printed-kept s h))

pub printed-one_line : (s : Text) → All IsPrinted s → unix_newlines s ≡ s
unfolding unix_newlines
printed-one_line [] h = refl
printed-one_line (c ∷ s) (p, h) =
    let other : (c == 13) ≡ false = ground arith in
    rw other (ap (λ t. c ∷ t) (printed-one_line s h))

pub read_text-format : (d : Decimal) → read_text (format d) ≡ format d
unfolding read_text
read_text-format d =
    let p = format-IsPrinted d in
    rw (printed-kept (format d) p, printed-one_line (format d) p) (trim-format d)

pub read_text-money : (d : Decimal) → read_text (money d) ≡ money d
unfolding money
read_text-money d = read_text-format (rescale d monetary_scale)

parse_decimal-nil : parse_decimal (some []) ≡ none
unfolding parse_decimal
parse_decimal-nil = refl

pub format-ne-nil : (d : Decimal) → format d ≢ []
format-ne-nil d h =
    let e : ◌≡◌ {A = Option Decimal} none (some d) =
      sym parse_decimal-nil ∙ ap (λ t. parse_decimal (some t)) (sym h) ∙ parse_decimal-format d in
    cc

pub non_empty-some : (t : Text) → t ≢ [] → non_empty t ≡ some t
non_empty-some [] h = absurd (h refl)
non_empty-some (c ∷ s) h = refl
