-- ===== src/Xml/Markup/Rendered.antt =====
-- packages/facturx/src/generate/xml.ts: the markup of a rendered document is that of its tree.
use validateur_facturx.Common.{
  ℕ, zero, suc, ◌+◌, ◌≡◌, refl, sym, ap, ◌∙◌, List, [], ◌∷◌, ◌++◌, All-append, Bool-cases, inl, inr,
}
use mathlib.Core.List.{append_assoc, append-nil}
use validateur_facturx.Common.Text.{Text, codes, join}
use validateur_facturx.Xml.{
  Attrs, XmlNode, XmlNodes, leaf, element, end_nodes, node, null_node, indent, has_no_child,
  render_attrs, escape_text, sanitise_text, xml_declaration, render_node, render_nodes, render_xml,
}
use validateur_facturx.Xml.Markup.{
  Piece, piece, margin, outside, inside, read_markup, markup_of, markup_of_nodes, IsPlain,
  HasPlainKeys, IsName, HasNamedKeys, IsNamed, AreNamed,
}
use validateur_facturx.Xml.Markup.Escaped.{Plain, escape_text-IsPlain, render_attrs-IsPlain}

outside-text : (seen s t : Text) → IsPlain s → outside seen (s ++ t) ≡ outside (seen ++ s) t
unfolding outside
outside-text seen [] t h = ap (λ a. outside a t) (sym (append-nil seen))
outside-text seen (c ∷ s) t ((p, q), h) =
    rw (outside, p)
      (outside-text (seen ++ c ∷ []) s t h ∙ ap (λ a. outside a t) (append_assoc seen (c ∷ []) s))

inside-tag :
    (before seen s t : Text)
    → IsPlain s
    → inside before seen (s ++ b'>' ∷ t) ≡ piece before (seen ++ s) ∷ outside [] t
unfolding outside
inside-tag before seen [] t h = ap (λ a. piece before a ∷ outside [] t) (sym (append-nil seen))
inside-tag before seen (c ∷ s) t ((p, q), h) =
    rw (inside, q)
      (inside-tag before (seen ++ c ∷ []) s t h
        ∙ ap (λ a. piece before a ∷ outside [] t) (append_assoc seen (c ∷ []) s))

-- Plain text, then a tag.
outside-tag :
    (seen s content t : Text)
    → IsPlain s
    → IsPlain content
    → outside seen (s ++ b'<' ∷ (content ++ b'>' ∷ t)) ≡ piece (seen ++ s) content ∷ outside [] t
unfolding outside
outside-tag seen s content t h k =
    outside-text seen s (b'<' ∷ (content ++ b'>' ∷ t)) h ∙ inside-tag (seen ++ s) [] content t k

-- Every line with its line break
abbrev unlines : List Text → Text
unlines [] = []
unlines (l ∷ ls) = l ++ 10 ∷ unlines ls

unlines-append : (ls ms : List Text) → unlines (ls ++ ms) ≡ unlines ls ++ unlines ms
unlines-append [] ms = refl
unlines-append (l ∷ ls) ms =
    ap (λ r. l ++ 10 ∷ r) (unlines-append ls ms)
    ∙ sym (append_assoc l (10 ∷ unlines ls) (unlines ms))

join-unlines : (l : Text) (ls : List Text) → join (10 ∷ []) (l ∷ ls) ++ 10 ∷ [] ≡ unlines (l ∷ ls)
join-unlines l [] = refl
join-unlines l (m ∷ ls) =
    append_assoc l (10 ∷ join (10 ∷ []) (m ∷ ls)) (10 ∷ [])
    ∙ ap (λ r. l ++ 10 ∷ r) (join-unlines m ls)

indent-IsPlain : (depth : ℕ) → IsPlain (indent depth)
indent-IsPlain zero = tt
indent-IsPlain (suc depth) = ((refl, refl), ((refl, refl), indent-IsPlain depth))

-- A line of one tag
line-tag :
    (depth : ℕ) (content rest : Text)
    → IsPlain content
    → outside (10 ∷ []) ((indent depth ++ b'<' ∷ (content ++ b'>' ∷ [])) ++ 10 ∷ rest)
      ≡ piece (margin depth) content ∷ outside (10 ∷ []) rest
unfolding outside
line-tag depth content rest h =
    ap (outside (10 ∷ [])) (
      append_assoc (indent depth) (b'<' ∷ (content ++ b'>' ∷ [])) (10 ∷ rest)
      ∙ ap (λ r. indent depth ++ b'<' ∷ r) (append_assoc content (b'>' ∷ []) (10 ∷ rest)))
    ∙ outside-tag (10 ∷ []) (indent depth) content (10 ∷ rest) (indent-IsPlain depth) h

-- A line of two tags around a text
line-leaf :
    (depth : ℕ) (content value name rest : Text)
    → IsPlain content
    → IsPlain value
    → IsPlain name
    → outside (10 ∷ []) (
        (indent depth
          ++ ((b'<' ∷ (content ++ b'>' ∷ [])) ++ (value ++ b'<' ∷ b'/' ∷ (name ++ b'>' ∷ []))))
        ++ 10 ∷ rest)
      ≡ piece (margin depth) content ∷ piece value (b'/' ∷ name) ∷ outside (10 ∷ []) rest
unfolding outside
line-leaf depth content value name rest h k l =
    let close = b'<' ∷ b'/' ∷ (name ++ b'>' ∷ []) in
    let tail = value ++ b'<' ∷ b'/' ∷ (name ++ b'>' ∷ 10 ∷ rest) in
    let shape_tail : (value ++ close) ++ 10 ∷ rest ≡ tail =
      append_assoc value close (10 ∷ rest)
      ∙ ap (λ r. value ++ b'<' ∷ b'/' ∷ r) (append_assoc name (b'>' ∷ []) (10 ∷ rest)) in
    let shape : (indent depth ++ ((b'<' ∷ (content ++ b'>' ∷ [])) ++ (value ++ close))) ++ 10 ∷ rest
        ≡ indent depth ++ b'<' ∷ (content ++ b'>' ∷ tail) =
      append_assoc (indent depth) _ (10 ∷ rest)
      ∙ ap (λ r. indent depth ++ b'<' ∷ r)
          (append_assoc (content ++ b'>' ∷ []) (value ++ close) (10 ∷ rest)
            ∙ append_assoc content (b'>' ∷ []) ((value ++ close) ++ 10 ∷ rest)
            ∙ ap (λ r. content ++ b'>' ∷ r) shape_tail) in
    ap (outside (10 ∷ [])) shape
    ∙ outside-tag (10 ∷ []) (indent depth) content tail (indent-IsPlain depth) h
    ∙ ap (λ ps. piece (margin depth) content ∷ ps)
        (outside-tag [] value (b'/' ∷ name) (10 ∷ rest) k ((refl, refl), l))

-- An element around its children
block-markup :
    (depth : ℕ) (content name : Text) (inner : List Text) (ps : List Piece) (rest : Text)
    → IsPlain content
    → IsPlain name
    → ((r : Text) → outside (10 ∷ []) (unlines inner ++ r) ≡ ps ++ outside (10 ∷ []) r)
    → outside (10 ∷ []) (
        unlines (
          (indent depth ++ b'<' ∷ (content ++ b'>' ∷ []))
          ∷ (inner ++ (indent depth ++ b'<' ∷ b'/' ∷ (name ++ b'>' ∷ [])) ∷ []))
        ++ rest)
      ≡ (piece (margin depth) content ∷ (ps ++ piece (margin depth) (b'/' ∷ name) ∷ []))
        ++ outside (10 ∷ []) rest
block-markup depth content name inner ps rest h k inside_ =
    let open_line = indent depth ++ b'<' ∷ (content ++ b'>' ∷ []) in
    let close_line = indent depth ++ b'<' ∷ b'/' ∷ (name ++ b'>' ∷ []) in
    let close_piece = piece (margin depth) (b'/' ∷ name) in
    let last = close_line ++ 10 ∷ rest in
    let shape : unlines (open_line ∷ (inner ++ close_line ∷ [])) ++ rest
        ≡ open_line ++ 10 ∷ (unlines inner ++ last) =
      append_assoc open_line _ rest
      ∙ ap (λ r. open_line ++ 10 ∷ r)
          (ap (λ r. r ++ rest) (unlines-append inner (close_line ∷ []))
            ∙ append_assoc (unlines inner) (close_line ++ 10 ∷ []) rest
            ∙ ap (λ r. unlines inner ++ r) (append_assoc close_line (10 ∷ []) rest)) in
    ap (outside (10 ∷ [])) shape
    ∙ line-tag depth content (unlines inner ++ last) h
    ∙ ap (λ qs. piece (margin depth) content ∷ qs)
        (inside_ last
          ∙ ap (λ qs. ps ++ qs) (line-tag depth (b'/' ∷ name) rest ((refl, refl), k))
          ∙ sym (append_assoc ps (close_piece ∷ []) (outside (10 ∷ []) rest)))

name-IsPlain : (name : Text) → IsName name → IsPlain name
name-IsPlain [] h = absurd h
name-IsPlain (c ∷ s) (p, h) = p

keys-HasPlainKeys : (attrs : Attrs) → HasNamedKeys attrs → HasPlainKeys attrs
keys-HasPlainKeys [] h = tt
keys-HasPlainKeys (a ∷ attrs) ((p, e), h) = (p, keys-HasPlainKeys attrs h)

mutual
  unfolding render_node markup_of IsNamed

  node-markup :
      (n : XmlNode) (depth : ℕ) (rest : Text)
      → IsNamed n
      → outside (10 ∷ []) (unlines (render_node n depth) ++ rest)
        ≡ markup_of n depth ++ outside (10 ∷ []) rest
  node-markup (leaf name value attrs) depth rest (named, keys) =
      let p = name-IsPlain name named in
      let k = keys-HasPlainKeys attrs keys in
      ap (outside (10 ∷ [])) (append_assoc _ (10 ∷ []) rest)
      ∙ line-leaf depth (name ++ render_attrs attrs) (escape_text (sanitise_text value)) name rest
          (All-append Plain name (render_attrs attrs) p (render_attrs-IsPlain attrs k))
          (escape_text-IsPlain (sanitise_text value)) p
  node-markup (element name children attrs) depth rest (named, keys, h) =
      let p = name-IsPlain name named in
      let k = keys-HasPlainKeys attrs keys in
      let content = name ++ render_attrs attrs in
      let plain = All-append Plain name (render_attrs attrs) p (render_attrs-IsPlain attrs k) in
      let inner = nodes-markup children (depth + 1) in
      elim (Bool-cases (has_no_child children)) [
        | inl e ↦ rw e (
            ap (λ c. outside (10 ∷ []) (((indent depth ++ b'<' ∷ c) ++ 10 ∷ []) ++ rest))
              (sym (append_assoc content (b'/' ∷ []) (b'>' ∷ [])))
            ∙ ap (outside (10 ∷ [])) (append_assoc _ (10 ∷ []) rest)
            ∙ line-tag depth (content ++ b'/' ∷ []) rest
                (All-append Plain content (b'/' ∷ []) plain ((refl, refl), tt)))
        | inr e ↦ rw e (
            block-markup depth content name (render_nodes children (depth + 1))
              (markup_of_nodes children (depth + 1)) rest plain p (λ r. inner r h))
      ]

  nodes-markup :
      (ns : XmlNodes) (depth : ℕ) (rest : Text)
      → AreNamed ns
      → outside (10 ∷ []) (unlines (render_nodes ns depth) ++ rest)
        ≡ markup_of_nodes ns depth ++ outside (10 ∷ []) rest
  nodes-markup end_nodes depth rest h = refl
  nodes-markup (node c ns) depth rest (p, h) =
      ap (λ r. outside (10 ∷ []) (r ++ rest))
        (unlines-append (render_node c depth) (render_nodes ns depth))
      ∙ ap (outside (10 ∷ [])) (append_assoc (unlines (render_node c depth)) _ rest)
      ∙ node-markup c depth (unlines (render_nodes ns depth) ++ rest) p
      ∙ ap (λ ps. markup_of c depth ++ ps) (nodes-markup ns depth rest h)
      ∙ sym (append_assoc (markup_of c depth) _ _)
  nodes-markup (null_node ns) depth rest h = nodes-markup ns depth rest h

-- The pieces of markup of a rendered document, before their attributes are read.
pub read_markup-render_xml :
    (root : XmlNode)
    → IsNamed root
    → read_markup (render_xml root)
      ≡ piece [] (codes "?xml version=\"1.0\" encoding=\"UTF-8\"?") ∷ markup_of root 0
unfolding read_markup render_xml outside
read_markup-render_xml root h =
    ap (outside []) (join-unlines xml_declaration (render_node root 0))
    ∙ ap (λ ps. piece [] (codes "?xml version=\"1.0\" encoding=\"UTF-8\"?") ∷ ps)
        (ap (outside (10 ∷ [])) (sym (append-nil (unlines (render_node root 0))))
          ∙ node-markup root 0 [] h
          ∙ append-nil (markup_of root 0))
