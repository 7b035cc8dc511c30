-- ===== src/Xml/Markup/Tags.antt =====
-- packages/facturx/src/generate/xml.ts: what a reader of tags and entities sees in a rendered document.
use validateur_facturx.Common.{
  ℕ, ◌+◌, List, [], ◌∷◌, ◌++◌, map, none, some, ◌==◌, true, false, if◌then◌else◌,
}
use validateur_facturx.Common.Text.{Text}
use validateur_facturx.Xml.{
  Attrs, XmlNode, XmlNodes, leaf, element, end_nodes, node, null_node, has_no_child, sanitise_text,
}
use validateur_facturx.Xml.Markup.{Piece, margin, read_markup, is_name_end}
use validateur_facturx.Xml.Markup.Decoded.{decode}

-- A tag with its attributes, the text before it, and what is left after the attributes. The name of a
-- closing tag begins with a slash.
pub record Tag : Type 0 where
  pub before : Text
  pub name : Text
  pub attrs : List (Text × Text)
  pub ends : Text

-- The reader of attributes: before one, in its name, before its quote, and in its value, which ends at
-- the next quote.
unfoldable mutual
  pub at_gap : Text → List (Text × Text) × Text
  at_gap [] = ([], [])
  at_gap (c ∷ s) = elim (c == b' ') [ true ↦ in_key [] s | false ↦ ([], c ∷ s) ]

  pub in_key : Text → Text → List (Text × Text) × Text
  in_key key [] = ([], key)
  in_key key (c ∷ s) = elim (c == b'=') [ true ↦ at_quote key s | false ↦ in_key (key ++ c ∷ []) s ]

  pub at_quote : Text → Text → List (Text × Text) × Text
  at_quote key [] = ([], key)
  at_quote key (c ∷ s) = elim (c == b'"') [ true ↦ in_value key [] s | false ↦ ([], c ∷ s) ]

  pub in_value : Text → Text → Text → List (Text × Text) × Text
  in_value key value [] = ([], value)
  in_value key value (c ∷ s) = elim (c == b'"') [
    | true ↦ let (attrs, ends) = at_gap s in ((key, decode value) ∷ attrs, ends)
    | false ↦ in_value key (value ++ c ∷ []) s
  ]

unfoldable pub read_name : Text → Text × Text
read_name [] = ([], [])
read_name (c ∷ s) =
    let (name, rest) = read_name s in if is_name_end c then ([], c ∷ s) else (c ∷ name, rest)

unfoldable pub read_content : Text → Text → Tag
unfolding at_gap read_name decode
read_content before [] = record { before = decode before; name = []; attrs = []; ends = [] }
read_content before (c ∷ s) =
    let (name, rest) = read_name s in
    let (attrs, ends) = at_gap rest in
    record { before = decode before; name = c ∷ name; attrs = attrs; ends = ends }

unfoldable pub read_tag : Piece → Tag
unfolding read_content
read_tag p = read_content p.before p.content

unfoldable pub read_tags : Text → List Tag
unfolding read_markup read_tag
read_tags s = map read_tag (read_markup s)

abbrev pub tag : Text → Text → List (Text × Text) → Text → Tag
tag before name attrs ends = record { before = before; name = name; attrs = attrs; ends = ends }

-- The attributes of an element: those with a value, less the characters that XML cannot hold.
abbrev pub given : Attrs → List (Text × Text)
given [] = []
given ((key, none) ∷ attrs) = given attrs
given ((key, some value) ∷ attrs) = (key, sanitise_text value) ∷ given attrs

-- The tags of a tree: an element opens and closes around its children, and the text of a leaf stands
-- before its closing tag.
unfoldable mutual
  pub tags_of : XmlNode → ℕ → List Tag
  tags_of (leaf name value attrs) depth =
      tag (margin depth) name (given attrs) [] ∷ tag (sanitise_text value) (b'/' ∷ name) [] [] ∷ []
  tags_of (element name children attrs) depth =
      let inner = tags_of_nodes children (depth + 1) in
      if has_no_child children
      then tag (margin depth) name (given attrs) (b'/' ∷ []) ∷ []
      else tag (margin depth) name (given attrs) []
        ∷ (inner ++ tag (margin depth) (b'/' ∷ name) [] [] ∷ [])

  pub tags_of_nodes : XmlNodes → ℕ → List Tag
  tags_of_nodes end_nodes depth = []
  tags_of_nodes (node child rest) depth = tags_of child depth ++ tags_of_nodes rest depth
  tags_of_nodes (null_node rest) depth = tags_of_nodes rest depth
