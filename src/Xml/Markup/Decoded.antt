-- ===== src/Xml/Markup/Decoded.antt =====
-- packages/facturx/src/generate/xml.ts: a reader of entities gives back what was escaped.
use validateur_facturx.Common.{
  ℕ, zero, suc, ◌≡◌, refl, sym, ap, ◌∙◌, true, false, [], ◌∷◌, ◌++◌, ◌==◌, arith, if◌then◌else◌,
  Bool-cases, inl, inr,
}
use mathlib.Core.List.{append_assoc}
use validateur_facturx.Common.Text.{Text, codes, text_eq}
use validateur_facturx.Xml.{replace_char, escape_text, escape_attr, indent}

-- The entities of XML that a writer may use, and the reference to a line break.
abbrev entity_text : Text → Text
entity_text name =
    if text_eq name (codes "amp")
    then b'&' ∷ []
    else if text_eq name (codes "lt")
    then b'<' ∷ []
    else if text_eq name (codes "gt")
    then b'>' ∷ []
    else if text_eq name (codes "quot")
    then b'"' ∷ []
    else if text_eq name (codes "#10")
    then 10 ∷ []
    else []

unfoldable mutual
  pub decode : Text → Text
  decode [] = []
  decode (c ∷ s) = elim (c == b'&') [ true ↦ in_entity [] s | false ↦ c ∷ decode s ]

  pub in_entity : Text → Text → Text
  in_entity name [] = []
  in_entity name (c ∷ s) = elim (c == b';') [
    | true ↦ entity_text name ++ decode s
    | false ↦ in_entity (name ++ c ∷ []) s
  ]

replace_char-append :
    (c : ℕ) (by s t : Text)
    → replace_char c by (s ++ t) ≡ replace_char c by s ++ replace_char c by t
unfolding replace_char
replace_char-append c by [] t = refl
replace_char-append c by (d ∷ s) t =
    ap (λ r. (if d == c then by else d ∷ []) ++ r) (replace_char-append c by s t)
    ∙ sym (append_assoc (if d == c then by else d ∷ []) _ _)

escape_text-append : (s t : Text) → escape_text (s ++ t) ≡ escape_text s ++ escape_text t
unfolding escape_text
escape_text-append s t =
    ap (λ r. replace_char b'>' (codes "&gt;") (replace_char b'<' (codes "&lt;") r))
      (replace_char-append b'&' (codes "&amp;") s t)
    ∙ ap (replace_char b'>' (codes "&gt;")) (replace_char-append b'<' (codes "&lt;") _ _)
    ∙ replace_char-append b'>' (codes "&gt;") _ _

escape_attr-append : (s t : Text) → escape_attr (s ++ t) ≡ escape_attr s ++ escape_attr t
unfolding escape_attr
escape_attr-append s t =
    ap (λ r. replace_char 10 (codes "&#10;") (replace_char b'"' (codes "&quot;") r))
      (escape_text-append s t)
    ∙ ap (replace_char 10 (codes "&#10;")) (replace_char-append b'"' (codes "&quot;") _ _)
    ∙ replace_char-append 10 (codes "&#10;") _ _

eqb-eq : (c d : ℕ) → (c == d) ≡ true → c ≡ d
eqb-eq c d h = ground arith

decode_plain : (c : ℕ) (t : Text) → (c == b'&') ≡ false → decode (c ∷ t) ≡ c ∷ decode t
unfolding decode
decode_plain c t e = rw (decode, e) refl

decode_text_char : (c : ℕ) (t : Text) → decode (escape_text (c ∷ []) ++ t) ≡ c ∷ decode t
unfolding escape_text replace_char decode
decode_text_char c t = elim (Bool-cases (c == b'&')) [
  | inl e ↦ rw (eqb-eq c b'&' e) refl
  | inr e ↦ elim (Bool-cases (c == b'<')) [
    | inl f ↦ rw (eqb-eq c b'<' f) refl
    | inr f ↦ elim (Bool-cases (c == b'>')) [
      | inl g ↦ rw (eqb-eq c b'>' g) refl
      | inr g ↦ rw (e, f, g) (decode_plain c t e)
    ]
  ]
]

decode_attr_char : (c : ℕ) (t : Text) → decode (escape_attr (c ∷ []) ++ t) ≡ c ∷ decode t
unfolding escape_attr escape_text replace_char decode
decode_attr_char c t = elim (Bool-cases (c == b'&')) [
  | inl e ↦ rw (eqb-eq c b'&' e) refl
  | inr e ↦ elim (Bool-cases (c == b'<')) [
    | inl f ↦ rw (eqb-eq c b'<' f) refl
    | inr f ↦ elim (Bool-cases (c == b'>')) [
      | inl g ↦ rw (eqb-eq c b'>' g) refl
      | inr g ↦ elim (Bool-cases (c == b'"')) [
        | inl h ↦ rw (eqb-eq c b'"' h) refl
        | inr h ↦ elim (Bool-cases (c == 10)) [
          | inl i ↦ rw (eqb-eq c 10 i) refl
          | inr i ↦ rw (e, f, g, h, i) (decode_plain c t e)
        ]
      ]
    ]
  ]
]

pub decode-escape_text : (s : Text) → decode (escape_text s) ≡ s
unfolding escape_text replace_char decode
decode-escape_text [] = refl
decode-escape_text (c ∷ s) =
    ap decode (escape_text-append (c ∷ []) s)
    ∙ decode_text_char c (escape_text s)
    ∙ ap (λ r. c ∷ r) (decode-escape_text s)

pub decode-escape_attr : (s : Text) → decode (escape_attr s) ≡ s
unfolding escape_attr escape_text replace_char decode
decode-escape_attr [] = refl
decode-escape_attr (c ∷ s) =
    ap decode (escape_attr-append (c ∷ []) s)
    ∙ decode_attr_char c (escape_attr s)
    ∙ ap (λ r. c ∷ r) (decode-escape_attr s)

decode-indent : (depth : ℕ) → decode (indent depth) ≡ indent depth
unfolding decode
decode-indent zero = refl
decode-indent (suc depth) = ap (λ r. b' ' ∷ b' ' ∷ r) (decode-indent depth)

pub decode-margin : (depth : ℕ) → decode (10 ∷ indent depth) ≡ 10 ∷ indent depth
unfolding decode
decode-margin depth = ap (λ r. 10 ∷ r) (decode-indent depth)
