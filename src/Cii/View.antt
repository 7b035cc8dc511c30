-- ===== src/Cii/View.antt =====
-- What the XML parser of packages/facturx/src/extract/cii.ts is relied on for: with the options that
-- are set there, the value that it returns for the text of a tree is `view_document` of the tree.
use validateur_facturx.Common.{
  ◌≡◌, refl, List, [], ◌∷◌, ◌++◌, Option, none, some, ◌==◌, if◌then◌else◌, Bool-cases, inl, inr,
}
use validateur_facturx.Common.Text.{Text, codes, text_eq, text_eq_iff, trim, starts_with}
use validateur_facturx.Xml.{
  Attrs, XmlNode, XmlNodes, leaf, element, end_nodes, node, null_node, sanitise_text, replace_char,
}
use validateur_facturx.Cii.Values.{
  XmlValue, Items, Fields, str, obj, arr, nil, cons, no_field, field, get_field, child,
}

-- `removeNSPrefix`
unfoldable pub local_name : Text → Text
local_name s = after_colon s s
  where
    after_colon : Text → Text → Text
    after_colon [] whole = whole
    after_colon (c ∷ s) whole = if c == b':' then s else after_colon s whole

-- A text with its line breaks as `\n`, as XML reads them.
unfoldable pub unix_newlines : Text → Text
unix_newlines [] = []
unix_newlines (c ∷ s) = if c == 13 then first_break s (unix_newlines s) else c ∷ unix_newlines s
  where
    first_break : Text → Text → Text
    first_break [] rest = 10 ∷ rest
    first_break (d ∷ s) rest = if d == 10 then rest else 10 ∷ rest

-- `trimValues`; the entities of the text are those of the writer.
unfoldable pub read_text : Text → Text
read_text value = trim (unix_newlines (sanitise_text value))

-- The writer gives a line break in an attribute as `&#10;`, which is no entity of the parser.
unfoldable pub read_attr : Text → Text
read_attr value = trim (unix_newlines (replace_char 10 (codes "&#10;") (sanitise_text value)))

-- Declarations of namespaces are dropped.
unfoldable pub attr_fields : Attrs → Fields
attr_fields [] = no_field
attr_fields ((key, none) ∷ attrs) = attr_fields attrs
attr_fields ((key, some value) ∷ attrs) =
    if starts_with key (codes "xmlns:")
    then attr_fields attrs
    else field (codes "@_" ++ local_name key) (str (read_attr value)) (attr_fields attrs)

abbrev pub snoc : Items → XmlValue → Items
snoc nil value = cons value nil
snoc (cons v rest) value = cons v (snoc rest value)

-- A second occurrence of a name turns its value into an array.
unfoldable pub push : Option XmlValue → XmlValue → XmlValue
push none value = value
push (some (arr values)) value = arr (snoc values value)
push (some (str s)) value = arr (cons (str s) (cons value nil))
push (some (obj fields)) value = arr (cons (obj fields) (cons value nil))

unfoldable pub add_field : Text → XmlValue → Fields → Fields
add_field name value no_field = field name value no_field
add_field name value (field key v rest) =
    if text_eq key name
    then field key (push (some v) value) rest
    else field key v (add_field name value rest)

abbrev pub name_of : XmlNode → Text
name_of (leaf name value attrs) = local_name name
name_of (element name children attrs) = local_name name

abbrev with_text : Text → Fields → Fields
with_text [] fields = fields
with_text (c ∷ s) fields = field (codes "#text") (str (c ∷ s)) fields

-- Without fields, an element is the string of its text.
abbrev pub plain_or : Text → Fields → XmlValue
plain_or s no_field = str s
plain_or s (field key value rest) = obj (with_text s (field key value rest))

unfoldable mutual
  pub view_node : XmlNode → XmlValue
  view_node (leaf name value attrs) = plain_or (read_text value) (attr_fields attrs)
  view_node (element name children attrs) = plain_or [] (view_nodes children (attr_fields attrs))

  pub view_nodes : XmlNodes → Fields → Fields
  view_nodes end_nodes fields = fields
  view_nodes (node child rest) fields =
      view_nodes rest (add_field (name_of child) (view_node child) fields)
  view_nodes (null_node rest) fields = view_nodes rest fields

-- The declaration that a document begins with is a field too: `ignoreDeclaration` is not set.
abbrev declaration_value : XmlValue
declaration_value = obj (
    field (codes "@_version") (str (codes "1.0"))
      (field (codes "@_encoding") (str (codes "UTF-8")) no_field))

unfoldable pub view_document : XmlNode → XmlValue
view_document root =
    obj (field (codes "?xml") declaration_value (field (name_of root) (view_node root) no_field))

-- The children of one name.
abbrev pub named : Text → List (Option XmlNode) → List XmlNode
named name [] = []
named name (none ∷ rest) = named name rest
named name (some c ∷ rest) =
    let later = named name rest in if text_eq (name_of c) name then c ∷ later else later

abbrev pub pushes : Option XmlValue → List XmlNode → Option XmlValue
pushes value [] = value
pushes value (c ∷ cs) = pushes (some (push value (view_node c))) cs

pub get_field-add_field :
    (name key : Text) (value : XmlValue) (fields : Fields)
    → get_field name (add_field key value fields) ≡ (
        if text_eq key name
        then some (push (get_field name fields) value)
        else get_field name fields)
unfolding get_field add_field push
get_field-add_field name key value no_field = refl
get_field-add_field name key value (field k v rest) = elim (Bool-cases (text_eq k key)) [
  | inl e ↦
      let same : k ≡ key = (text_eq_iff k key).0 e in
      elim (Bool-cases (text_eq key name)) [
        | inl n ↦ rw (e, same, n) refl
        | inr n ↦ rw (e, same, n) refl
      ]
  | inr e ↦ elim (Bool-cases (text_eq k name)) [
    | inl n ↦
        let same : k ≡ name = (text_eq_iff k name).0 n in
        elim (Bool-cases (text_eq key name)) [
          | inl m ↦ let key_is : key ≡ name = (text_eq_iff key name).0 m in absurd cc
          | inr m ↦ rw (e, n, m) refl
        ]
    | inr n ↦ rw (e, n) (get_field-add_field name key value rest)
  ]
]
