-- ===== src/Xml/Tests.antt =====
-- packages/facturx/src/generate/xml.ts on a tree with hostile texts.
use validateur_facturx.Common.{◌≡◌, refl, [], ◌∷◌, some, none}
use validateur_facturx.Common.Text.{codes}
use validateur_facturx.Xml.{
  XmlNode, leaf, el, nodes, render_xml, render_node, render_attrs, escape_text, escape_attr,
  sanitise_text, replace_char,
}
use validateur_facturx.Xml.Markup.{IsNamed}
use validateur_facturx.Xml.Markup.Tags.{tag, read_tags, tags_of}
use validateur_facturx.Xml.Markup.Faithful.{read_tags-render_xml}

abbrev hostile : XmlNode
hostile =
    el (codes "a")
      (some (leaf (codes "b") (codes "</b>&") ((codes "k", some (codes "\"/>")) ∷ [])) ∷ none ∷ [])
      []

hostile_text :
    render_xml hostile
    ≡ codes
        "<?xml version=\"1.0\" encoding=\"UTF-8\"?>\n<a>\n  <b k=\"&quot;/&gt;\">&lt;/b&gt;&amp;</b>\n</a>\n"
unfolding render_xml render_node render_attrs escape_text escape_attr sanitise_text replace_char
    nodes
hostile_text = refl

hostile-IsNamed : IsNamed hostile
unfolding IsNamed nodes
hostile-IsNamed = (
  (((refl, refl), tt), (refl, tt)),
  tt,
  (((((refl, refl), tt), (refl, tt)), ((((refl, refl), tt), (refl, tt)), tt)), tt),
)

read_tags-render_xml_example :
    read_tags (render_xml hostile)
    ≡ tag []
        (codes "?xml")
        ((codes "version", codes "1.0") ∷ (codes "encoding", codes "UTF-8") ∷ [])
        (b'?' ∷ [])
      ∷ tags_of hostile 0
read_tags-render_xml_example = read_tags-render_xml hostile hostile-IsNamed

hostile_tags :
    tags_of hostile 0
    ≡ tag (10 ∷ []) (codes "a") [] []
      ∷ tag (codes "\n  ") (codes "b") ((codes "k", codes "\"/>") ∷ []) []
      ∷ tag (codes "</b>&") (codes "/b") [] []
      ∷ tag (10 ∷ []) (codes "/a") [] []
      ∷ []
unfolding tags_of nodes sanitise_text
hostile_tags = refl
