-- ===== src/Replies/Parse/Blocks.antt =====
-- `parse_variables` of wpa_ctrl/replies.py on a block of key=value lines.
use wpa_ctrl_py.Base.{
  ◌≡◌, refl, ap, ◌∙◌, false, List, [], ◌∷◌, ◌++◌, Option, none, some, All, All-append,
  if◌then◌else◌, map,
}
use wpa_ctrl_py.Text.{Partition, Text, is_line_end, text_eq}
use wpa_ctrl_py.Text.Laws.{Lacks, partition-append}
use wpa_ctrl_py.Text.Lines.{unlines, IsLine, splitlines-unlines}
use wpa_ctrl_py.Dict
use wpa_ctrl_py.Dict.{Dict}
use wpa_ctrl_py.Dict.Laws.{get-set}
use wpa_ctrl_py.Replies.Parse.{add_variable, add_variables, parse_variables}

abbrev pub Variables : Type 0
Variables = List (Text × Text)

-- The key ends at the first equals sign; the value may hold more of them.
abbrev pub IsVariable : Text × Text → Type 0
IsVariable v = Lacks b'=' v.0 × IsLine v.0 × IsLine v.1

abbrev pub line_of : Text × Text → Text
line_of v = v.0 ++ b'=' ∷ v.1

abbrev pub block : Variables → Text
block variables = unlines (map line_of variables)

-- The value that stands last for a key.
abbrev pub last_value : Text → Option Text → Variables → Option Text
last_value key found [] = found
last_value key found (v ∷ variables) =
    last_value key (if text_eq v.0 key then some v.1 else found) variables

lines_IsLine :
    (variables : Variables) → All IsVariable variables → All IsLine (map line_of variables)
lines_IsLine [] h = tt
lines_IsLine (v ∷ variables) h = (
  All-append (λ c. is_line_end c ≡ false) v.0 (b'=' ∷ v.1) h.0.1
      (unfold is_line_end in refl, h.0.2),
  lines_IsLine variables h.1,
)

get-add_variables :
    (key : Text) (d : Dict) (variables : Variables)
    → All IsVariable variables
    → Dict.get key (add_variables d (map line_of variables))
      ≡ last_value key (Dict.get key d) variables
unfolding add_variables add_variable
get-add_variables key d [] h = refl
get-add_variables key d (v ∷ variables) h =
    ap (λ (p : Partition). Dict.get key (add_variables (add_variable p d) (map line_of variables)))
      (partition-append b'=' v.0 v.1 h.0.0)
    ∙ (get-add_variables key (Dict.set v.0 v.1 d) variables h.1
        ∙ ap (λ (o : Option Text). last_value key o variables) (get-set key v.0 v.1 d))

-- Read back from a block of variables, whose keys hold no equals sign and whose lines hold no end of
-- a line, a key has the value of its last line, equals signs included, and a key without a line is
-- missing.
pub get-parse_variables :
    (key : Text) (variables : Variables)
    → All IsVariable variables
    → Dict.get key (parse_variables (block variables)) ≡ last_value key none variables
unfolding parse_variables
get-parse_variables key variables h =
    rw (splitlines-unlines (map line_of variables) (lines_IsLine variables h))
      (get-add_variables key [] variables h ∙ unfold Dict.get in refl)
