-- ===== src/Xml.antt =====
-- packages/facturx/src/generate/xml.ts: the tree of an XML document, and its text.
pub mod Markup
mod Tests
use validateur_facturx.Common.{
  ℕ, zero, suc, ◌+◌, Bool, true, false, not, List, [], ◌∷◌, ◌++◌, Option, none, some, ◌&&◌, ◌||◌,
  ◌==◌, leb, keep, if◌then◌else◌,
}
use validateur_facturx.Common.Text.{Text, codes, join}

-- An attribute is left out where it is null or undefined.
abbrev pub Attrs : Type 0
Attrs = List (Text × Option Text)

-- A text leaf or a container; a child of a container may be null.
mutual
  pub data XmlNode : Type 0 where
    leaf : Text → Text → Attrs → XmlNode
    element : Text → XmlNodes → Attrs → XmlNode

  pub data XmlNodes : Type 0 where
    end_nodes : XmlNodes
    node : XmlNode → XmlNodes → XmlNodes
    null_node : XmlNodes → XmlNodes

-- An array of children
unfoldable pub nodes : List (Option XmlNode) → XmlNodes
nodes [] = end_nodes
nodes (none ∷ rest) = null_node (nodes rest)
nodes (some child ∷ rest) = node child (nodes rest)

abbrev pub el : Text → List (Option XmlNode) → Attrs → XmlNode
el name children attrs = element name (nodes children) attrs

-- `replace(/c/g, '…')`, for one character
unfoldable pub replace_char : ℕ → Text → Text → Text
replace_char c by [] = []
replace_char c by (d ∷ s) = (if d == c then by else d ∷ []) ++ replace_char c by s

unfoldable pub escape_text : Text → Text
escape_text s =
    replace_char b'>' (codes "&gt;")
      (replace_char b'<' (codes "&lt;") (replace_char b'&' (codes "&amp;") s))

unfoldable pub escape_attr : Text → Text
escape_attr s = replace_char 10 (codes "&#10;") (replace_char b'"' (codes "&quot;") (escape_text s))

-- `[\x00-\x08\x0B\x0C\x0E-\x1F\x7F]` is the class of what is left out.
abbrev pub is_xml_char : ℕ → Bool
is_xml_char c =
    not (leb c 8 || (c == 0x0B || (c == 0x0C || ((leb 0x0E c && leb c 0x1F) || c == 0x7F))))

unfoldable pub sanitise_text : Text → Text
sanitise_text s = keep is_xml_char s

unfoldable pub render_attrs : Attrs → Text
render_attrs [] = []
render_attrs ((key, none) ∷ attrs) = render_attrs attrs
render_attrs ((key, some value) ∷ attrs) =
    b' '
    ∷ (key ++ (codes "=\"" ++ (escape_attr (sanitise_text value) ++ b'"' ∷ render_attrs attrs)))

abbrev pub indent : ℕ → Text
indent zero = []
indent (suc depth) = b' ' ∷ b' ' ∷ indent depth

abbrev pub has_no_child : XmlNodes → Bool
has_no_child end_nodes = true
has_no_child (node child rest) = false
has_no_child (null_node rest) = has_no_child rest

-- `<` or `</`, a name with what follows it, and `>` or `/>`
abbrev pub tag : Text → Text → Text → Text
tag opening content closing = opening ++ (content ++ closing)

-- The lines that are pushed on `out`.
unfoldable mutual
  pub render_node : XmlNode → ℕ → List Text
  render_node (leaf name value attrs) depth =
      (indent depth
        ++ (tag (codes "<") (name ++ render_attrs attrs) (codes ">")
            ++ (escape_text (sanitise_text value) ++ tag (codes "</") name (codes ">"))))
      ∷ []
  render_node (element name children attrs) depth =
      let inner = render_nodes children (depth + 1) in
      if has_no_child children
      then (indent depth ++ tag (codes "<") (name ++ render_attrs attrs) (codes "/>")) ∷ []
      else (indent depth ++ tag (codes "<") (name ++ render_attrs attrs) (codes ">"))
        ∷ (inner ++ (indent depth ++ tag (codes "</") name (codes ">")) ∷ [])

  pub render_nodes : XmlNodes → ℕ → List Text
  render_nodes end_nodes depth = []
  render_nodes (node child rest) depth = render_node child depth ++ render_nodes rest depth
  render_nodes (null_node rest) depth = render_nodes rest depth

abbrev pub xml_declaration : Text
xml_declaration = codes "<?xml version=\"1.0\" encoding=\"UTF-8\"?>"

unfoldable pub render_xml : XmlNode → Text
render_xml root = join (10 ∷ []) (xml_declaration ∷ render_node root 0) ++ 10 ∷ []
