-- ===== src/Prelude/Xml.antt =====
-- The elements of `xml.etree.ElementTree`: their tag, attributes and children.
use mathlib.Core.List.{List, [], ◌∷◌, ◌++◌}
use mathlib.Core.Option.{none, some}
use zenith_voip.Prelude.Tests.{if◌then◌else◌}
use zenith_voip.Prelude.Strings.{Text, text_eq}
use zenith_voip.Prelude.Dict.{Dict, lookup}

mutual
  pub data Element : Type 0 where
    element : Text → Dict Text → Children → Element

  pub data Children : Type 0 where
    nil : Children
    cons : Element → Children → Children

abbrev pub tag : Element → Text
tag (element t attributes inner) = t

abbrev pub children : Element → Children
children (element t attributes inner) = inner

-- `element.attrib.get(name, "")`
abbrev pub attribute : Text → Element → Text
attribute name (element t attributes inner) = elim (lookup name attributes) [
  | none ↦ []
  | some v ↦ v
]

-- `ET.SubElement` for each of a list, in order
abbrev pub children_of : List Element → Children
children_of [] = nil
children_of (e ∷ es) = cons e (children_of es)

-- `findall("./name")`
unfoldable pub named : Text → Children → List Element
named name nil = []
named name (cons e es) = let rest = named name es in if text_eq (tag e) name then e ∷ rest else rest

-- `findall("./outer/inner")`
unfoldable pub named_in : Text → Text → Children → List Element
named_in outer inner nil = []
named_in outer inner (cons e es) =
    let rest = named_in outer inner es in
    if text_eq (tag e) outer then named inner (children e) ++ rest else rest

-- `findall(".//name")`, in the order of the document
unfoldable mutual
  pub element_and_below : Text → Element → List Element
  element_and_below name (element t attributes inner) =
      let rest = below name inner in
      if text_eq t name then element t attributes inner ∷ rest else rest

  pub below : Text → Children → List Element
  below name nil = []
  below name (cons e es) = element_and_below name e ++ below name es
