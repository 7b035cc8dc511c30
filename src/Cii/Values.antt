-- ===== src/Cii/Values.antt =====
-- packages/facturx/src/extract/cii.ts: the JavaScript value that the XML parser returns, and how it is
-- walked: `child`, `path`, `asArray`, `text`, `attr` and `amount`.
use validateur_facturx.Common.{List, [], ◌∷◌, ◌++◌, Option, none, some, if◌then◌else◌}
use validateur_facturx.Common.Text.{Text, codes, text_eq, trim}
use validateur_facturx.Money.{Decimal}
use validateur_facturx.Money.Literal.{parse_decimal}
use validateur_facturx.Cii.{non_empty}

-- With `parseTagValue` off, a value is a string, an object or an array.
mutual
  pub data XmlValue : Type 0 where
    str : Text → XmlValue
    obj : Fields → XmlValue
    arr : Items → XmlValue

  pub data Items : Type 0 where
    nil : Items
    cons : XmlValue → Items → Items

  pub data Fields : Type 0 where
    no_field : Fields
    field : Text → XmlValue → Fields → Fields

unfoldable pub get_field : Text → Fields → Option XmlValue
get_field name no_field = none
get_field name (field key value rest) = if text_eq key name then some value else get_field name rest

-- Neither a string nor an array has the property.
unfoldable pub child : Option XmlValue → Text → Option XmlValue
child (some (obj fields)) name = get_field name fields
child _ name = none

unfoldable pub path : Option XmlValue → List Text → Option XmlValue
path node [] = node
path node (name ∷ names) = path (child node name) names

abbrev pub items : Items → List XmlValue
items nil = []
items (cons value rest) = value ∷ items rest

unfoldable pub as_array : Option XmlValue → List XmlValue
as_array none = []
as_array (some (arr values)) = items values
as_array (some (str s)) = str s ∷ []
as_array (some (obj fields)) = obj fields ∷ []

-- `[0]`
abbrev pub first : List XmlValue → Option XmlValue
first [] = none
first (value ∷ values) = some value

unfoldable mutual
  pub text_of : XmlValue → Option Text
  text_of (str s) = non_empty (trim s)
  text_of (obj fields) = text_of_field fields
  text_of (arr values) = text_of_first values

  pub text_of_first : Items → Option Text
  text_of_first nil = none
  text_of_first (cons value rest) = text_of value

  -- the text of the property `#text`
  pub text_of_field : Fields → Option Text
  text_of_field no_field = none
  text_of_field (field key value rest) =
      let here = text_of value in
      let later = text_of_field rest in if text_eq key (codes "#text") then here else later

abbrev pub text : Option XmlValue → Option Text
text none = none
text (some value) = text_of value

-- A property `@_name`, where it is a string that is not blank.
unfoldable pub attr_value : Option XmlValue → Option Text
attr_value (some (str s)) = non_empty (trim s)
attr_value _ = none

unfoldable mutual
  pub attr_of : XmlValue → Text → Option Text
  attr_of (str s) name = none
  attr_of (obj fields) name = attr_value (get_field (codes "@_" ++ name) fields)
  attr_of (arr values) name = attr_of_first values name

  pub attr_of_first : Items → Text → Option Text
  attr_of_first nil name = none
  attr_of_first (cons value rest) name = attr_of value name

abbrev pub attr : Option XmlValue → Text → Option Text
attr none name = none
attr (some value) name = attr_of value name

unfoldable pub amount_at : Option XmlValue → Option Decimal
amount_at value = parse_decimal (text value)
