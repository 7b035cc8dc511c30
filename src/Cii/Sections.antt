-- ===== src/Cii/Sections.antt =====
-- packages/facturx/src/extract/cii.ts and generate/cii.ts: reading a child of a written element.
use validateur_facturx.Common.{
  ◌≡◌, refl, sym, ap, ap₂, ◌∙◌, Bool, true, false, List, [], ◌∷◌, ◌++◌, map, Option, none, some,
  Bool-cases, inl, inr,
}
use mathlib.Core.List.{append_assoc, append-nil}
use validateur_facturx.Common.Text.{Text, text_eq}
use validateur_facturx.Xml.{Attrs, XmlNode, leaf, element, nodes, el}
use validateur_facturx.Cii.Values.{
  XmlValue, Items, Fields, str, obj, arr, nil, cons, no_field, field, get_field, child, items,
  as_array,
}
use validateur_facturx.Cii.Write.{when}
use validateur_facturx.Cii.View.{
  attr_fields, view_node, view_nodes, push, add_field, name_of, named, pushes, snoc, plain_or,
  get_field-add_field,
}

get_field-view_nodes :
    (name : Text) (children : List (Option XmlNode)) (fields : Fields)
    → get_field name (view_nodes (nodes children) fields)
      ≡ pushes (get_field name fields) (named name children)
unfolding nodes view_node
get_field-view_nodes name [] fields = refl
get_field-view_nodes name (none ∷ rest) fields = get_field-view_nodes name rest fields
get_field-view_nodes name (some c ∷ rest) fields =
    let rec = get_field-view_nodes name rest (add_field (name_of c) (view_node c) fields) in
    let here = get_field-add_field name (name_of c) (view_node c) fields in
    elim (Bool-cases (text_eq (name_of c) name)) [
      | inl e ↦ rec ∙ rw (here, e) refl
      | inr e ↦ rec ∙ rw (here, e) refl
    ]

child-plain_or :
    (name : Text) (fields : Fields) → child (some (plain_or [] fields)) name ≡ get_field name fields
unfolding child get_field
child-plain_or name no_field = refl
child-plain_or name (field key value rest) = refl

-- A property of a written element: the children of that name, collapsed.
pub child-el :
    (element_name name : Text) (children : List (Option XmlNode)) (attrs : Attrs)
    → attr_fields attrs ≡ no_field
    → child (some (view_node (el element_name children attrs))) name
      ≡ pushes none (named name children)
unfolding view_node get_field
child-el element_name name children attrs h =
    child-plain_or name (view_nodes (nodes children) (attr_fields attrs))
    ∙ ap (λ fs. get_field name (view_nodes (nodes children) fs)) h
    ∙ get_field-view_nodes name children no_field

-- A name with one child, which then is the property.
pub child-one :
    (element_name name : Text) (children : List (Option XmlNode)) (attrs : Attrs) (c : XmlNode)
    → attr_fields attrs ≡ no_field
    → named name children ≡ c ∷ []
    → child (some (view_node (el element_name children attrs))) name ≡ some (view_node c)
unfolding push
child-one element_name name children attrs c h one =
    child-el element_name name children attrs h ∙ ap (pushes none) one

-- The values of written nodes are strings and objects.
abbrev IsSingle : XmlValue → Type 0
IsSingle (str s) = Unit
IsSingle (obj fields) = Unit
IsSingle (arr values) = ⊥

plain_or-IsSingle : (s : Text) (fields : Fields) → IsSingle (plain_or s fields)
plain_or-IsSingle s no_field = tt
plain_or-IsSingle s (field key value rest) = tt

view_node-IsSingle : (c : XmlNode) → IsSingle (view_node c)
unfolding view_node
view_node-IsSingle (leaf name value attrs) = plain_or-IsSingle _ _
view_node-IsSingle (element name children attrs) = plain_or-IsSingle _ _

items-snoc :
    (values : Items) (value : XmlValue) → items (snoc values value) ≡ items values ++ value ∷ []
items-snoc nil value = refl
items-snoc (cons v rest) value = ap (λ vs. v ∷ vs) (items-snoc rest value)

as_array-single : (value : XmlValue) → IsSingle value → as_array (some value) ≡ value ∷ []
unfolding as_array
as_array-single (str s) h = refl
as_array-single (obj fields) h = refl
as_array-single (arr values) h = absurd h

as_array-push :
    (old : Option XmlValue) (value : XmlValue)
    → IsSingle value
    → as_array (some (push old value)) ≡ as_array old ++ value ∷ []
unfolding push as_array
as_array-push none value h = as_array-single value h
as_array-push (some (arr values)) value h = items-snoc values value
as_array-push (some (str s)) value h = refl
as_array-push (some (obj fields)) value h = refl

as_array-pushes :
    (old : Option XmlValue) (cs : List XmlNode)
    → as_array (pushes old cs) ≡ as_array old ++ map view_node cs
as_array-pushes old [] = sym (append-nil (as_array old))
as_array-pushes old (c ∷ cs) =
    as_array-pushes (some (push old (view_node c))) cs
    ∙ ap (λ vs. vs ++ map view_node cs) (as_array-push old (view_node c) (view_node-IsSingle c))
    ∙ append_assoc (as_array old) _ _

-- A repeated child is read back in order, however often it stands.
pub as_array-el :
    (element_name name : Text) (children : List (Option XmlNode)) (attrs : Attrs)
    → attr_fields attrs ≡ no_field
    → as_array (child (some (view_node (el element_name children attrs))) name)
      ≡ map view_node (named name children)
unfolding as_array
as_array-el element_name name children attrs h =
    ap as_array (child-el element_name name children attrs h)
    ∙ as_array-pushes none (named name children)

pub named-append :
    (name : Text) (xs ys : List (Option XmlNode))
    → named name (xs ++ ys) ≡ named name xs ++ named name ys
named-append name [] ys = refl
named-append name (none ∷ xs) ys = named-append name xs ys
named-append name (some c ∷ xs) ys = elim (Bool-cases (text_eq (name_of c) name)) [
  | inl e ↦ rw e (ap (λ cs. c ∷ cs) (named-append name xs ys))
  | inr e ↦ rw e (named-append name xs ys)
]

pub named-when :
    (name : Text) (test : Bool) (c : XmlNode) (rest : List (Option XmlNode))
    → text_eq (name_of c) name ≡ false
    → named name (when test c ∷ rest) ≡ named name rest
named-when name true c rest h = rw h refl
named-when name false c rest h = refl

module _ {ℓ} {A : Type ℓ} (write : A → XmlNode) (name : Text) where
  pub named-map :
      (xs : List A)
      → ((x : A) → text_eq (name_of (write x)) name ≡ true)
      → named name (map (λ x. some (write x)) xs) ≡ map write xs
  named-map [] h = refl
  named-map (x ∷ xs) h = rw (h x) (ap (λ cs. write x ∷ cs) (named-map xs h))

  pub named-map_other :
      (xs : List A)
      → ((x : A) → text_eq (name_of (write x)) name ≡ false)
      → named name (map (λ x. some (write x)) xs) ≡ []
  named-map_other [] h = refl
  named-map_other (x ∷ xs) h = rw (h x) (named-map_other xs h)

  -- A spread of written elements, before other children.
  pub named-spread :
      (xs : List A) (rest : List (Option XmlNode))
      → ((x : A) → text_eq (name_of (write x)) name ≡ true)
      → named name rest ≡ []
      → named name (map (λ x. some (write x)) xs ++ rest) ≡ map write xs
  named-spread xs rest h none_left =
      named-append name (map (λ x. some (write x)) xs) rest
      ∙ ap₂ (λ cs ds. cs ++ ds) (named-map xs h) none_left
      ∙ append-nil (map write xs)

  pub named-past_spread :
      (xs : List A) (rest : List (Option XmlNode)) (found : List XmlNode)
      → ((x : A) → text_eq (name_of (write x)) name ≡ false)
      → named name rest ≡ found
      → named name (map (λ x. some (write x)) xs ++ rest) ≡ found
  named-past_spread xs rest found h later =
      named-append name (map (λ x. some (write x)) xs) rest
      ∙ ap₂ (λ cs ds. cs ++ ds) (named-map_other xs h) later
