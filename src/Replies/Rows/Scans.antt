-- ===== src/Replies/Rows/Scans.antt =====
-- The loop of `scan_results` in wpa_ctrl/client.py on the table that the daemon prints.
use wpa_ctrl_py.Base.{
  ℕ, suc, ◌≡◌, refl, ap, ◌∙◌, false, List, [], ◌∷◌, ◌++◌, map, arith, ltb, All, All-append,
  is_empty, length, drop,
}
use wpa_ctrl_py.Base.Int.{ℤ, pos, negsuc}
use wpa_ctrl_py.Result.{Result, ok, ◌>>=◌}
use wpa_ctrl_py.Text.{Text, split, strip, is_space, is_line_end}
use wpa_ctrl_py.Text.Laws.{Lacks, split-append}
use wpa_ctrl_py.Text.Lines.{unlines, IsLine, splitlines-unlines}
use wpa_ctrl_py.Text.Joining.{join-split, is_empty-split}
use wpa_ctrl_py.Text.Number.{to_int, decimal, decimal_ℤ}
use wpa_ctrl_py.Text.Number.RoundTrip.{decimal-IsDigit, to_int-decimal_ℤ}
use wpa_ctrl_py.Replies.Parse.{row_fields, table_rows, parse_table}
use wpa_ctrl_py.Replies.Rows.{ScanResult, readable, read_scan_result, parse_scan_results}
use wpa_ctrl_py.Replies.Rows.Networks.{digits-Lacks, digits-IsLine, strip-solid, readable-ok}

-- The fields with tabs between.
abbrev pub scan_row : ScanResult → Text
scan_row r =
    r.bssid
    ++ b'\t'
      ∷ (decimal_ℤ r.frequency
          ++ b'\t' ∷ (decimal_ℤ r.signal_level ++ b'\t' ∷ (r.flags ++ b'\t' ∷ r.ssid)))

abbrev pub StartsSolid : Text → Type 0
StartsSolid [] = ⊥
StartsSolid (c ∷ text) = is_space c ≡ false

-- A BSSID that does not begin with white space, no tab but in the SSID, which is last, and no end
-- of a line.
abbrev pub IsScan : ScanResult → Type 0
IsScan r =
    StartsSolid r.bssid
    × Lacks b'\t' r.bssid
    × Lacks b'\t' r.flags
    × IsLine r.bssid
    × IsLine r.flags
    × IsLine r.ssid

decimal_ℤ-Lacks : (z : ℤ) → Lacks b'\t' (decimal_ℤ z)
unfolding decimal_ℤ
decimal_ℤ-Lacks (pos n) = digits-Lacks (decimal n) (decimal-IsDigit n)
decimal_ℤ-Lacks (negsuc n) = (omega arith, digits-Lacks (decimal (suc n)) (decimal-IsDigit (suc n)))

decimal_ℤ-IsLine : (z : ℤ) → IsLine (decimal_ℤ z)
unfolding decimal_ℤ
decimal_ℤ-IsLine (pos n) = digits-IsLine (decimal n) (decimal-IsDigit n)
decimal_ℤ-IsLine (negsuc n) =
    (unfold is_line_end in refl, digits-IsLine (decimal (suc n)) (decimal-IsDigit (suc n)))

scan_row-IsLine : (r : ScanResult) → IsScan r → IsLine (scan_row r)
scan_row-IsLine r h =
    let Ends = λ (c : ℕ). is_line_end c ≡ false in
    let tab : is_line_end b'\t' ≡ false = unfold is_line_end in refl in
    All-append Ends r.bssid _ h.3 (
      tab,
      All-append Ends (decimal_ℤ r.frequency) _ (decimal_ℤ-IsLine r.frequency) (
        tab,
        All-append Ends (decimal_ℤ r.signal_level) _ (decimal_ℤ-IsLine r.signal_level)
            (tab, All-append Ends r.flags _ h.4 (tab, h.5)),
      ),
    )

split-scan_row :
    (r : ScanResult)
    → IsScan r
    → split b'\t' (scan_row r)
      ≡ r.bssid ∷ decimal_ℤ r.frequency ∷ decimal_ℤ r.signal_level ∷ r.flags ∷ split b'\t' r.ssid
split-scan_row r h =
    split-append b'\t' r.bssid _ h.1
    ∙ ap (◌∷◌ r.bssid) (
        split-append b'\t' (decimal_ℤ r.frequency) _ (decimal_ℤ-Lacks r.frequency)
        ∙ ap (◌∷◌ (decimal_ℤ r.frequency)) (
            split-append b'\t' (decimal_ℤ r.signal_level) _ (decimal_ℤ-Lacks r.signal_level)
            ∙ ap (◌∷◌ (decimal_ℤ r.signal_level)) (split-append b'\t' r.flags _ h.2)))

starts-solid : (text more : Text) → StartsSolid text → is_empty (strip (text ++ more)) ≡ false
starts-solid [] more h = absurd h
starts-solid (c ∷ text) more h = strip-solid c (text ++ more) h

abbrev scan_fields : ScanResult → List Text
scan_fields r = r.bssid ∷ decimal_ℤ r.frequency ∷ decimal_ℤ r.signal_level ∷ r.flags ∷ r.ssid ∷ []

row_fields-scan_row :
    (r : ScanResult) → IsScan r → row_fields 5 (split b'\t' (scan_row r)) ≡ scan_fields r
unfolding row_fields
row_fields-scan_row r h =
    ap (row_fields 5) (split-scan_row r h)
    ∙ ap
        (λ (f : Text).
          r.bssid ∷ decimal_ℤ r.frequency ∷ decimal_ℤ r.signal_level ∷ r.flags ∷ f ∷ [])
        (join-split b'\t' r.ssid)

wide : (r : ScanResult) → IsScan r → ltb (length (split b'\t' (scan_row r))) 5 ≡ false
wide r h = rw (split-scan_row r h) (some_more (split b'\t' r.ssid) (is_empty-split b'\t' r.ssid))
  where
    some_more :
        (more : List Text)
        → is_empty more ≡ false
        → ltb
            (length (r.bssid ∷ decimal_ℤ r.frequency ∷ decimal_ℤ r.signal_level ∷ r.flags ∷ more))
            5
          ≡ false
    some_more [] h = cc
    some_more (m ∷ more) h = ground arith

table_rows-scan_row :
    (results : List ScanResult)
    → All IsScan results
    → table_rows 5 (map scan_row results) ≡ map scan_fields results
unfolding table_rows
table_rows-scan_row [] h = refl
table_rows-scan_row (r ∷ results) h =
    rw
      (
        starts-solid r.bssid _ h.0.0,
        wide r h.0,
        row_fields-scan_row r h.0,
        table_rows-scan_row results h.1,
      )
      refl

read_scan_result-fields : (r : ScanResult) → read_scan_result (scan_fields r) ≡ ok r
unfolding read_scan_result
read_scan_result-fields r =
    let read : Result ℤ → Result ℤ → Result ScanResult = λ f l. f >>= λ f'. l >>= λ l'. ok (record {
      bssid = r.bssid;
      frequency = f';
      signal_level = l';
      flags = r.flags;
      ssid = r.ssid;
    }) in
    ap (λ (f : Result ℤ). read f (to_int 10 (decimal_ℤ r.signal_level)))
      (to_int-decimal_ℤ r.frequency)
    ∙ ap (read (ok r.frequency)) (to_int-decimal_ℤ r.signal_level)

readable-scan_fields :
    (results : List ScanResult) → readable read_scan_result (map scan_fields results) ≡ results
unfolding readable
readable-scan_fields [] = refl
readable-scan_fields (r ∷ results) =
    readable-ok (read_scan_result (scan_fields r)) r
      (readable read_scan_result (map scan_fields results)) (read_scan_result-fields r)
    ∙ ap (◌∷◌ r) (readable-scan_fields results)

rows_IsLine : (results : List ScanResult) → All IsScan results → All IsLine (map scan_row results)
rows_IsLine [] h = tt
rows_IsLine (r ∷ results) h = (scan_row-IsLine r h.0, rows_IsLine results h.1)

-- Behind any header line, the rows of SCAN_RESULTS are read back as the results that they were
-- printed for, all of them and in order, signal levels below zero included, if each begins with no
-- white space, no field holds an end of a line and no field but the SSID, which stands last, a tab.
pub parse_scan_results-scan_row :
    (header : Text) (results : List ScanResult)
    → IsLine header
    → All IsScan results
    → parse_scan_results (unlines (header ∷ map scan_row results)) ≡ results
unfolding parse_scan_results parse_table
parse_scan_results-scan_row header results line h =
    ap (λ (lines : List Text). readable read_scan_result (table_rows 5 (drop 1 lines)))
      (splitlines-unlines (header ∷ map scan_row results) (line, rows_IsLine results h))
    ∙ ap (readable read_scan_result) (table_rows-scan_row results h)
    ∙ readable-scan_fields results
