-- ===== src/Replies/Parse/Tables.antt =====
-- `parse_table` of wpa_ctrl/replies.py on tables of tab-separated fields.
use wpa_ctrl_py.Base.{
  ℕ, zero, suc, ◌-◌, ◌≤◌, ◌≡◌, refl, ap, ◌∙◌, inl, inr, true, false, List, [], ◌∷◌, arith, All,
  length, length-append, take, drop, ltb, is_empty, Bool-cases,
}
use wpa_ctrl_py.Text.{Text, split, join, strip}
use wpa_ctrl_py.Replies.Parse.{splitlines, row_fields, table_rows, parse_table}

-- The rows of a table, each of which has these many fields.
abbrev pub IsWide : ℕ → List Text → Type 0
IsWide columns row = length row ≡ columns

take-enough : (n : ℕ) (fields : List Text) → n ≤ length fields → length (take n fields) ≡ n
take-enough zero fields h = refl
take-enough (suc n) [] h = absurd (omega arith)
take-enough (suc n) (f ∷ fields) h = ap suc (take-enough n fields (omega arith))

row_fields-IsWide :
    (columns : ℕ) (fields : List Text)
    → ltb 0 columns ≡ true
    → ltb (length fields) columns ≡ false
    → IsWide columns (row_fields columns fields)
unfolding row_fields
row_fields-IsWide columns fields some_column enough =
    let n = columns - 1 in
    length-append (take n fields) (join (b'\t' ∷ []) (drop n fields) ∷ [])
    ∙ rw (take-enough n fields (ground arith)) (ground arith)

table_rows-IsWide :
    (columns : ℕ) (lines : List Text)
    → ltb 0 columns ≡ true
    → All (IsWide columns) (table_rows columns lines)
unfolding table_rows
table_rows-IsWide columns [] h = tt
table_rows-IsWide columns (line ∷ lines) h =
    let rest = table_rows-IsWide columns lines h in
    elim (Bool-cases (is_empty (strip line))) [
      | inl blank ↦ rw blank rest
      | inr full ↦ elim (Bool-cases (ltb (length (split b'\t' line)) columns)) [
        | inl short ↦ rw (full, short) rest
        | inr enough ↦
            rw (full, enough) (row_fields-IsWide columns (split b'\t' line) h enough, rest)
      ]
    ]

-- Every row that `parse_table` yields has exactly the number of fields that was asked for, whatever
-- the reply, so that its callers can take it apart.
pub parse_table-IsWide :
    (reply : Text) (columns : ℕ)
    → ltb 0 columns ≡ true
    → All (IsWide columns) (parse_table reply columns)
unfolding parse_table
parse_table-IsWide reply columns h = table_rows-IsWide columns (drop 1 (splitlines reply)) h
