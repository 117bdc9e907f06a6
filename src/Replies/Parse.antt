-- ===== src/Replies/Parse.antt =====
-- `parse_variables` and `parse_table` of wpa_ctrl/replies.py.
pub mod Blocks
pub mod Tables
use wpa_ctrl_py.Base.{
  ℕ, ◌-◌, Bool, true, false, List, [], ◌∷◌, ◌++◌, if◌then◌else◌, is_empty, length, take, drop, ltb,
}
use wpa_ctrl_py.Text.{Text, Partition, partition, splitlines, split, strip, join}
use wpa_ctrl_py.Dict
use wpa_ctrl_py.Dict.{Dict}

unfoldable pub add_variable : Partition → Dict → Dict
add_variable p variables = if p.found then Dict.set p.before p.after variables else variables

unfoldable pub add_variables : Dict → List Text → Dict
add_variables variables [] = variables
add_variables variables (line ∷ lines) =
    add_variables (add_variable (partition b'=' line) variables) lines

unfoldable pub parse_variables : Text → Dict
parse_variables reply = add_variables [] (splitlines reply)

-- One row of fields, the last of which takes the separators that are left over.
unfoldable pub row_fields : ℕ → List Text → List Text
row_fields columns fields =
    take (columns - 1) fields ++ join (b'\t' ∷ []) (drop (columns - 1) fields) ∷ []

unfoldable pub table_rows : ℕ → List Text → List (List Text)
table_rows columns [] = []
table_rows columns (line ∷ lines) =
    let rows = table_rows columns lines in
    let fields = split b'\t' line in
    if is_empty (strip line)
    then rows
    else if ltb (length fields) columns
    then rows
    else row_fields columns fields ∷ rows

-- A table has at least one column.
unfoldable pub parse_table : Text → ℕ → List (List Text)
parse_table reply columns = table_rows columns (drop 1 (splitlines reply))
