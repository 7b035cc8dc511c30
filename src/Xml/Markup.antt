-- ===== src/Xml/Markup.antt =====
-- packages/facturx/src/generate/xml.ts: a reader of markup, and what it sees in a rendered document.
pub mod Escaped
pub mod Decoded
pub mod Rendered
pub mod Tags
pub mod Faithful
use validateur_facturx.Common.{
  ℕ, zero, suc, ◌+◌, Bool, true, false, List, [], ◌∷◌, ◌++◌, Option, none, some, ◌==◌, ◌||◌,
  if◌then◌else◌, All, ◌≡◌,
}
use validateur_facturx.Common.Text.{Text, codes}
use validateur_facturx.Xml.{
  Attrs, XmlNode, XmlNodes, leaf, element, end_nodes, node, null_node, indent, has_no_child,
  render_attrs, escape_text, sanitise_text, xml_declaration,
}

-- A tag, without its brackets, and the text before it.
pub record Piece : Type 0 where
  pub before : Text
  pub content : Text

-- The reader: outside of tags, with the text since the last one; or inside of a tag.
unfoldable mutual
  pub outside : Text → Text → List Piece
  outside seen [] = []
  outside seen (c ∷ s) = elim (c == b'<') [
    | true ↦ inside seen [] s
    | false ↦ outside (seen ++ c ∷ []) s
  ]

  pub inside : Text → Text → Text → List Piece
  inside before seen [] = []
  inside before seen (c ∷ s) = elim (c == b'>') [
    | true ↦ record { before = before; content = seen } ∷ outside [] s
    | false ↦ inside before (seen ++ c ∷ []) s
  ]

unfoldable pub read_markup : Text → List Piece
read_markup s = outside [] s

abbrev pub piece : Text → Text → Piece
piece before content = record { before = before; content = content }

-- The line break and the indentation before a tag
abbrev pub margin : ℕ → Text
margin depth = 10 ∷ indent depth

-- The tags of a tree: an element opens and closes around its children, and the text of a leaf stands
-- escaped before its closing tag.
unfoldable mutual
  pub markup_of : XmlNode → ℕ → List Piece
  markup_of (leaf name value attrs) depth =
      piece (margin depth) (name ++ render_attrs attrs)
      ∷ piece (escape_text (sanitise_text value)) (b'/' ∷ name)
      ∷ []
  markup_of (element name children attrs) depth =
      let inner = markup_of_nodes children (depth + 1) in
      if has_no_child children
      then piece (margin depth) ((name ++ render_attrs attrs) ++ b'/' ∷ []) ∷ []
      else piece (margin depth) (name ++ render_attrs attrs)
        ∷ (inner ++ piece (margin depth) (b'/' ∷ name) ∷ [])

  pub markup_of_nodes : XmlNodes → ℕ → List Piece
  markup_of_nodes end_nodes depth = []
  markup_of_nodes (node child rest) depth = markup_of child depth ++ markup_of_nodes rest depth
  markup_of_nodes (null_node rest) depth = markup_of_nodes rest depth

-- Neither bracket
abbrev pub IsPlain : Text → Type 0
IsPlain s = All (λ c. ((c == b'<') ≡ false) × ((c == b'>') ≡ false)) s

abbrev pub HasPlainKeys : Attrs → Type 0
HasPlainKeys attrs = All (λ a. IsPlain a.0) attrs

-- What ends the name of a tag
abbrev pub is_name_end : ℕ → Bool
is_name_end c = c == b' ' || c == b'/'

-- A name is not empty and has no space, slash or bracket.
abbrev pub IsName : Text → Type 0
IsName [] = ⊥
IsName (c ∷ s) = IsPlain (c ∷ s) × All (λ d. is_name_end d ≡ false) (c ∷ s)

-- The name of an attribute has no bracket and no equals sign.
abbrev pub HasNamedKeys : Attrs → Type 0
HasNamedKeys attrs = All (λ a. IsPlain a.0 × All (λ c. (c == b'=') ≡ false) a.0) attrs

-- The names are well formed; the texts and the values of attributes may be any.
unfoldable mutual
  pub IsNamed : XmlNode → Type 0
  IsNamed (leaf name value attrs) = IsName name × HasNamedKeys attrs
  IsNamed (element name children attrs) = IsName name × HasNamedKeys attrs × AreNamed children

  pub AreNamed : XmlNodes → Type 0
  AreNamed end_nodes = Unit
  AreNamed (node child rest) = IsNamed child × AreNamed rest
  AreNamed (null_node rest) = AreNamed rest
