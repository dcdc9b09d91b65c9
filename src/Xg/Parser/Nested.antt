-- ===== src/Xg/Parser/Nested.antt =====
-- `parse_skip` of xg/parser.rs on the events of well-formed contents.
use octobuild.Prelude.{ℕ, suc, List, [], ◌∷◌, ◌++◌, Text, ok, ◌≡◌, refl, ap, ◌∙◌, append_assoc}
use octobuild.Xg.Parser.{XmlEvent, start_element, end_element, other_event, parse_skip}

-- The events of the contents of an element, with the ends of the elements that it holds.
pub data IsNested : List XmlEvent → Type 0 where
  nothing : IsNested []
  plain : {es : List XmlEvent} → IsNested es → IsNested (other_event ∷ es)
  element :
      {inner es : List XmlEvent} (name : Text) (attrs : List (Text × Text))
      → IsNested inner
      → IsNested es
      → IsNested (start_element name attrs ∷ (inner ++ end_element ∷ es))

skip_nested :
    (depth : ℕ) {es : List XmlEvent} (more : List XmlEvent)
    → IsNested es
    → parse_skip depth (es ++ more) ≡ parse_skip depth more
unfolding parse_skip
skip_nested depth more nothing = refl
skip_nested depth more (plain n) = skip_nested depth more n
skip_nested depth more (element {inner} {es} name attrs n m) =
    ap (parse_skip (suc depth)) (append_assoc inner (end_element ∷ es) more)
    ∙ skip_nested (suc depth) (end_element ∷ (es ++ more)) n
    ∙ skip_nested depth more m

-- Behind the start of an element `parse_skip` passes over its contents, however deep they are, and
-- over its end, and leaves what follows.
pub parse_skip_lem :
    {es : List XmlEvent} (more : List XmlEvent)
    → IsNested es
    → parse_skip 0 (es ++ end_element ∷ more) ≡ ok more
unfolding parse_skip
parse_skip_lem more n = skip_nested 0 (end_element ∷ more) n
