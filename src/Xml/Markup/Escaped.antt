-- ===== src/Xml/Markup/Escaped.antt =====
-- packages/facturx/src/generate/xml.ts: escaped text has no bracket.
use validateur_facturx.Common.{
  ℕ, ◌≡◌, refl, false, [], ◌∷◌, none, some, ◌==◌, All, All-append, Bool-cases, inl, inr,
}
use validateur_facturx.Common.Text.{Text, codes}
use validateur_facturx.Xml.{
  Attrs, replace_char, escape_text, escape_attr, sanitise_text, render_attrs,
}
use validateur_facturx.Xml.Markup.{IsPlain, HasPlainKeys}

abbrev pub Without : ℕ → Text → Type 0
Without d s = All (λ c. (c == d) ≡ false) s

replace_char-gone : (c : ℕ) (by s : Text) → Without c by → Without c (replace_char c by s)
unfolding replace_char
replace_char-gone c by [] h = tt
replace_char-gone c by (d ∷ s) h = elim (Bool-cases (d == c)) [
  | inl e ↦ rw e (All-append _ by (replace_char c by s) h (replace_char-gone c by s h))
  | inr e ↦ rw e (e, replace_char-gone c by s h)
]

replace_char-kept :
    (c d : ℕ) (by s : Text) → Without d by → Without d s → Without d (replace_char c by s)
unfolding replace_char
replace_char-kept c d by [] h k = tt
replace_char-kept c d by (x ∷ s) h (p, k) = elim (Bool-cases (x == c)) [
  | inl e ↦ rw e (All-append _ by (replace_char c by s) h (replace_char-kept c d by s h k))
  | inr e ↦ rw e (p, replace_char-kept c d by s h k)
]

both-IsPlain : (s : Text) → Without b'<' s → Without b'>' s → IsPlain s
both-IsPlain [] h k = tt
both-IsPlain (c ∷ s) (p, h) (q, k) = ((p, q), both-IsPlain s h k)

escape_text-lt : (s : Text) → Without b'<' (escape_text s)
unfolding escape_text
escape_text-lt s =
    replace_char-kept b'>' b'<' (codes "&gt;") _ (refl, (refl, (refl, (refl, tt))))
      (replace_char-gone b'<' (codes "&lt;") (replace_char b'&' (codes "&amp;") s)
        (refl, (refl, (refl, (refl, tt)))))

escape_text-gt : (s : Text) → Without b'>' (escape_text s)
unfolding escape_text
escape_text-gt s = replace_char-gone b'>' (codes "&gt;") _ (refl, (refl, (refl, (refl, tt))))

pub escape_text-IsPlain : (s : Text) → IsPlain (escape_text s)
escape_text-IsPlain s = both-IsPlain (escape_text s) (escape_text-lt s) (escape_text-gt s)

escape_attr-kept :
    (d : ℕ) (s : Text)
    → Without d (codes "&quot;")
    → Without d (codes "&#10;")
    → Without d (escape_text s)
    → Without d (escape_attr s)
unfolding escape_attr
escape_attr-kept d s q n h =
    replace_char-kept 10 d (codes "&#10;") _ n
      (replace_char-kept b'"' d (codes "&quot;") (escape_text s) q h)

pub escape_attr-quoted : (s : Text) → Without b'"' (escape_attr s)
unfolding escape_attr
escape_attr-quoted s =
    replace_char-kept 10 b'"' (codes "&#10;") _ (refl, (refl, (refl, (refl, (refl, tt)))))
      (replace_char-gone b'"' (codes "&quot;") (escape_text s)
        (refl, (refl, (refl, (refl, (refl, (refl, tt)))))))

escape_attr-IsPlain : (s : Text) → IsPlain (escape_attr s)
escape_attr-IsPlain s =
    both-IsPlain (escape_attr s)
      (escape_attr-kept b'<' s (refl, (refl, (refl, (refl, (refl, (refl, tt))))))
        (refl, (refl, (refl, (refl, (refl, tt))))) (escape_text-lt s))
      (escape_attr-kept b'>' s (refl, (refl, (refl, (refl, (refl, (refl, tt))))))
        (refl, (refl, (refl, (refl, (refl, tt))))) (escape_text-gt s))

abbrev pub Plain : ℕ → Type 0
Plain c = ((c == b'<') ≡ false) × ((c == b'>') ≡ false)

pub render_attrs-IsPlain : (attrs : Attrs) → HasPlainKeys attrs → IsPlain (render_attrs attrs)
unfolding render_attrs
render_attrs-IsPlain [] h = tt
render_attrs-IsPlain ((key, none) ∷ attrs) (p, h) = render_attrs-IsPlain attrs h
render_attrs-IsPlain ((key, some value) ∷ attrs) (p, h) = (
  (refl, refl),
  All-append Plain key _ p (
    (refl, refl),
    (
      (refl, refl),
      All-append Plain (escape_attr (sanitise_text value)) (b'"' ∷ render_attrs attrs)
          (escape_attr-IsPlain (sanitise_text value)) ((refl, refl), render_attrs-IsPlain attrs h),
    ),
  ),
)
