-- ===== src/Xml/Markup/Faithful.antt =====
-- packages/facturx/src/generate/xml.ts: a reader of tags gets back the tree that was rendered.
use validateur_facturx.Common.{
  ℕ, ◌+◌, ◌≡◌, refl, sym, ap, ◌∙◌, List, [], ◌∷◌, ◌++◌, map, none, some, ◌==◌, false, All,
  Bool-cases, inl, inr,
}
use mathlib.Core.List.{append_assoc, append-nil}
use validateur_facturx.Common.Text.{Text, codes}
use validateur_facturx.Xml.{
  Attrs, XmlNode, XmlNodes, leaf, element, end_nodes, node, null_node, has_no_child, render_attrs,
  escape_text, escape_attr, sanitise_text, render_xml,
}
use validateur_facturx.Xml.Markup.{
  Piece, piece, margin, markup_of, markup_of_nodes, is_name_end, IsName, HasNamedKeys, IsNamed,
  AreNamed,
}
use validateur_facturx.Xml.Markup.Decoded.{
  decode, decode-escape_text, decode-escape_attr, decode-margin,
}
use validateur_facturx.Xml.Markup.Escaped.{escape_attr-quoted}
use validateur_facturx.Xml.Markup.Rendered.{read_markup-render_xml}
use validateur_facturx.Xml.Markup.Tags.{
  Tag, tag, at_gap, in_key, in_value, read_name, read_content, read_tag, read_tags, given, tags_of,
  tags_of_nodes,
}

key-read :
    (seen key rest : Text)
    → All (λ c. (c == b'=') ≡ false) key
    → in_key seen (key ++ b'=' ∷ b'"' ∷ rest) ≡ in_value (seen ++ key) [] rest
unfolding at_gap
key-read seen [] rest h = ap (λ k. in_value k [] rest) (sym (append-nil seen))
key-read seen (c ∷ key) rest (p, h) =
    rw (in_key, p)
      (key-read (seen ++ c ∷ []) key rest h
        ∙ ap (λ k. in_value k [] rest) (append_assoc seen (c ∷ []) key))

value-read :
    (key seen value rest : Text)
    → All (λ c. (c == b'"') ≡ false) value
    → in_value key seen (value ++ b'"' ∷ rest)
      ≡ ((key, decode (seen ++ value)) ∷ (at_gap rest).0, (at_gap rest).1)
unfolding at_gap
value-read key seen [] rest h =
    ap (λ v. ((key, decode v) ∷ (at_gap rest).0, (at_gap rest).1)) (sym (append-nil seen))
value-read key seen (c ∷ value) rest (p, h) =
    rw (in_value, p)
      (value-read key (seen ++ c ∷ []) value rest h
        ∙ ap (λ v. ((key, decode v) ∷ (at_gap rest).0, (at_gap rest).1))
            (append_assoc seen (c ∷ []) value))

-- What may stand after the attributes.
abbrev IsEnd : Text → Type 0
IsEnd ends = at_gap ends ≡ ([], ends)

abbrev AreNameChars : Text → Type 0
AreNameChars = All (λ c. is_name_end c ≡ false)

attrs-read :
    (attrs : Attrs) (ends : Text)
    → HasNamedKeys attrs
    → IsEnd ends
    → at_gap (render_attrs attrs ++ ends) ≡ (given attrs, ends)
unfolding render_attrs at_gap
attrs-read [] ends h e = e
attrs-read ((key, none) ∷ attrs) ends (p, h) e = attrs-read attrs ends h e
attrs-read ((key, some value) ∷ attrs) ends ((p, q), h) e =
    let v = sanitise_text value in
    let rest = render_attrs attrs ++ ends in
    let shape : (key ++ (codes "=\"" ++ (escape_attr v ++ b'"' ∷ render_attrs attrs))) ++ ends
        ≡ key ++ b'=' ∷ b'"' ∷ (escape_attr v ++ b'"' ∷ rest) =
      append_assoc key _ ends
      ∙ ap (λ r. key ++ b'=' ∷ b'"' ∷ r)
          (append_assoc (escape_attr v) (b'"' ∷ render_attrs attrs) ends) in
    ap (in_key []) shape
    ∙ key-read [] key _ q
    ∙ value-read key [] (escape_attr v) rest (escape_attr-quoted v)
    ∙ ap (λ x. ((key, x) ∷ (at_gap rest).0, (at_gap rest).1)) (decode-escape_attr v)
    ∙ ap (λ (r : List (Text × Text) × Text). ((key, v) ∷ r.0, r.1)) (attrs-read attrs ends h e)

-- A text before which a name ends.
abbrev EndsName : Text → Type 0
EndsName rest = read_name rest ≡ ([], rest)

attrs-EndsName :
    (attrs : Attrs) (ends : Text) → EndsName ends → EndsName (render_attrs attrs ++ ends)
unfolding render_attrs read_name
attrs-EndsName [] ends h = h
attrs-EndsName ((key, none) ∷ attrs) ends h = attrs-EndsName attrs ends h
attrs-EndsName ((key, some value) ∷ attrs) ends h = refl

name-read :
    (name rest : Text) → AreNameChars name → EndsName rest → read_name (name ++ rest) ≡ (name, rest)
unfolding read_name
name-read [] rest h e = e
name-read (c ∷ name) rest (p, h) e =
    rw p (ap (λ (r : Text × Text). (c ∷ r.0, r.1)) (name-read name rest h e))

-- A name, its attributes, and what ends the tag.
content-read :
    (before : Text) (c : ℕ) (name : Text) (attrs : Attrs) (ends : Text)
    → AreNameChars name
    → HasNamedKeys attrs
    → IsEnd ends
    → EndsName ends
    → read_tag (piece before (((c ∷ name) ++ render_attrs attrs) ++ ends))
      ≡ tag (decode before) (c ∷ name) (given attrs) ends
unfolding read_tag read_content
content-read before c name attrs ends h k e n =
    let rest = render_attrs attrs ++ ends in
    let named = name-read name rest h (attrs-EndsName attrs ends n) in
    rw (append_assoc name (render_attrs attrs) ends, named, attrs-read attrs ends k e) refl

open-read :
    (depth : ℕ) (name : Text) (attrs : Attrs) (ends : Text)
    → IsName name
    → HasNamedKeys attrs
    → IsEnd ends
    → EndsName ends
    → read_tag (piece (margin depth) ((name ++ render_attrs attrs) ++ ends))
      ≡ tag (margin depth) name (given attrs) ends
open-read depth [] attrs ends h k e n = absurd h
open-read depth (c ∷ name) attrs ends (p, (q, h)) k e n =
    content-read (margin depth) c name attrs ends h k e n
    ∙ ap (λ b. tag b (c ∷ name) (given attrs) ends) (decode-margin depth)

open_line-read :
    (depth : ℕ) (name : Text) (attrs : Attrs)
    → IsName name
    → HasNamedKeys attrs
    → read_tag (piece (margin depth) (name ++ render_attrs attrs))
      ≡ tag (margin depth) name (given attrs) []
open_line-read depth name attrs h k =
    ap (λ x. read_tag (piece (margin depth) x)) (sym (append-nil (name ++ render_attrs attrs)))
    ∙ open-read depth name attrs [] h k (unfold at_gap in refl) (unfold read_name in refl)

empty_line-read :
    (depth : ℕ) (name : Text) (attrs : Attrs)
    → IsName name
    → HasNamedKeys attrs
    → read_tag (piece (margin depth) ((name ++ render_attrs attrs) ++ b'/' ∷ []))
      ≡ tag (margin depth) name (given attrs) (b'/' ∷ [])
empty_line-read depth name attrs h k =
    open-read depth name attrs (b'/' ∷ []) h k (unfold at_gap in refl) (unfold read_name in refl)

close-read :
    (before name : Text)
    → IsName name
    → read_tag (piece before (b'/' ∷ name)) ≡ tag (decode before) (b'/' ∷ name) [] []
close-read before [] h = absurd h
close-read before (c ∷ name) (p, h) =
    ap (λ x. read_tag (piece before (b'/' ∷ x)))
      (sym (append-nil (c ∷ name)) ∙ sym (append-nil ((c ∷ name) ++ [])))
    ∙ unfold render_attrs in
      content-read before b'/' (c ∷ name) [] [] h tt (unfold at_gap in refl)
        (unfold read_name in refl)

map-append_tags :
    (ps qs : List Piece) → map read_tag (ps ++ qs) ≡ map read_tag ps ++ map read_tag qs
map-append_tags [] qs = refl
map-append_tags (p ∷ ps) qs = ap (λ ts. read_tag p ∷ ts) (map-append_tags ps qs)

map-append-tag :
    (ps : List Piece) (p : Piece) → map read_tag (ps ++ p ∷ []) ≡ map read_tag ps ++ read_tag p ∷ []
map-append-tag ps p = map-append_tags ps (p ∷ [])

mutual
  unfolding tags_of markup_of IsNamed

  node-tags :
      (n : XmlNode) (depth : ℕ) → IsNamed n → map read_tag (markup_of n depth) ≡ tags_of n depth
  node-tags (leaf name value attrs) depth (h, k) =
      let v = sanitise_text value in
      let closed : read_tag (piece (escape_text v) (b'/' ∷ name)) ≡ tag v (b'/' ∷ name) [] [] =
        close-read (escape_text v) name h
        ∙ ap (λ b. tag b (b'/' ∷ name) [] []) (decode-escape_text v) in
      ap (λ t. t ∷ read_tag (piece (escape_text v) (b'/' ∷ name)) ∷ [])
        (open_line-read depth name attrs h k)
      ∙ ap (λ t. tag (margin depth) name (given attrs) [] ∷ t ∷ []) closed
  node-tags (element name children attrs) depth (h, k, g) =
      let inner = nodes-tags children (depth + 1) g in
      let opened = open_line-read depth name attrs h k in
      let closed : read_tag (piece (margin depth) (b'/' ∷ name))
          ≡ tag (margin depth) (b'/' ∷ name) [] [] =
        close-read (margin depth) name h
        ∙ ap (λ b. tag b (b'/' ∷ name) [] []) (decode-margin depth) in
      elim (Bool-cases (has_no_child children)) [
        | inl e ↦ rw e (ap (λ t. t ∷ []) (empty_line-read depth name attrs h k))
        | inr e ↦
            rw
              (
                e,
                opened,
                map-append-tag (markup_of_nodes children (depth + 1))
                    (piece (margin depth) (b'/' ∷ name)),
                inner,
                closed,
              )
              refl
      ]

  nodes-tags :
      (ns : XmlNodes) (depth : ℕ)
      → AreNamed ns
      → map read_tag (markup_of_nodes ns depth) ≡ tags_of_nodes ns depth
  nodes-tags end_nodes depth h = refl
  nodes-tags (node c ns) depth (p, h) =
      rw
        (
          map-append_tags (markup_of c depth) (markup_of_nodes ns depth),
          node-tags c depth p,
          nodes-tags ns depth h,
        )
        refl
  nodes-tags (null_node ns) depth h = nodes-tags ns depth h

abbrev declared : Tag
declared =
    tag [] (codes "?xml") ((codes "version", codes "1.0") ∷ (codes "encoding", codes "UTF-8") ∷ [])
      (b'?' ∷ [])

-- Whatever the texts and the values of attributes are, a reader of tags, quoted values and entities gets back
-- the tree that was rendered, and no other markup: the declaration, then the opening and the closing tag of every element in
-- order, with the attributes that were given to it and no other, and the text of every leaf before its closing
-- tag; texts and values are those of the tree, less the characters that XML cannot hold. The names must
-- not be empty or have a space, a slash or an angle bracket, and those of attributes no bracket or equals sign.
pub read_tags-render_xml :
    (root : XmlNode)
    → IsNamed root
    → read_tags (render_xml root)
      ≡ tag []
          (codes "?xml")
          ((codes "version", codes "1.0") ∷ (codes "encoding", codes "UTF-8") ∷ [])
          (b'?' ∷ [])
        ∷ tags_of root 0
unfolding read_tags read_tag read_content at_gap read_name decode
read_tags-render_xml root h =
    ap (map read_tag) (read_markup-render_xml root h)
    ∙ ap (λ ts. declared ∷ ts) (node-tags root 0 h)
