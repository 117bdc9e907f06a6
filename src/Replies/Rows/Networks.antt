-- ===== src/Replies/Rows/Networks.antt =====
-- `WpaCtrl._parse_networks` of wpa_ctrl/client.py on the table that the daemon prints.
use wpa_ctrl_py.Base.{
  ℕ, ◌≡◌, refl, sym, ap, ◌∙◌, Bool, true, false, ◌&&◌, List, [], ◌∷◌, ◌++◌, map, arith, ltb,
  if◌then◌else◌, All, All-append, is_empty, length, drop,
}
use wpa_ctrl_py.Base.Int.{ℤ, pos}
use wpa_ctrl_py.Result.{err-not-ok, Result, ok, err, value_error, ◌>>=◌}
use wpa_ctrl_py.Text.{Text, split, strip, lstrip, rstrip, is_space, is_line_end}
use wpa_ctrl_py.Text.Laws.{Lacks, split-append}
use wpa_ctrl_py.Text.Lines.{unlines, IsLine, splitlines-unlines}
use wpa_ctrl_py.Text.Joining.{join-split, is_empty-split}
use wpa_ctrl_py.Text.Number.{to_int, decimal}
use wpa_ctrl_py.Text.Number.RoundTrip.{IsDigit, decimal-IsDigit, to_int-decimal}
use wpa_ctrl_py.Replies.Parse.{row_fields, table_rows, parse_table}
use wpa_ctrl_py.Replies.Rows.{Network, readable, read_network, parse_networks}

-- What the daemon knows of a network.
pub record Entry : Type 0 where
  pub id : ℕ
  pub ssid : Text
  pub bssid : Text
  pub flags : Text

abbrev pub network_of : Entry → Network
network_of e = record { id = pos e.id; ssid = e.ssid; bssid = e.bssid; flags = e.flags }

-- The fields with tabs between.
abbrev pub row : Entry → Text
row e = decimal e.id ++ b'\t' ∷ (e.ssid ++ b'\t' ∷ (e.bssid ++ b'\t' ∷ e.flags))

-- No tab but in the flags, which are last, and no end of a line.
abbrev pub IsEntry : Entry → Type 0
IsEntry e =
    Lacks b'\t' e.ssid × Lacks b'\t' e.bssid × IsLine e.ssid × IsLine e.bssid × IsLine e.flags

pub digits-Lacks : (text : Text) → All IsDigit text → Lacks b'\t' text
digits-Lacks [] h = tt
digits-Lacks (c ∷ text) h = (ground arith, digits-Lacks text h.1)

pub digits-IsLine : (text : Text) → All IsDigit text → IsLine text
digits-IsLine [] h = tt
digits-IsLine (c ∷ text) h = (unfold is_line_end in ground arith, digits-IsLine text h.1)

row-IsLine : (e : Entry) → IsEntry e → IsLine (row e)
row-IsLine e h =
    let Ends = λ (c : ℕ). is_line_end c ≡ false in
    let tab : is_line_end b'\t' ≡ false = unfold is_line_end in refl in
    All-append Ends (decimal e.id) _ (digits-IsLine (decimal e.id) (decimal-IsDigit e.id))
      (tab, All-append Ends e.ssid _ h.2 (tab, All-append Ends e.bssid _ h.3 (tab, h.4)))

split-row :
    (e : Entry)
    → IsEntry e
    → split b'\t' (row e) ≡ decimal e.id ∷ e.ssid ∷ e.bssid ∷ split b'\t' e.flags
split-row e h =
    split-append b'\t' (decimal e.id) _ (digits-Lacks (decimal e.id) (decimal-IsDigit e.id))
    ∙ ap (◌∷◌ (decimal e.id))
        (split-append b'\t' e.ssid _ h.0 ∙ ap (◌∷◌ e.ssid) (split-append b'\t' e.bssid _ h.1))

kept_head :
    (b : Bool) (c : ℕ) (rest : Text) → is_empty (if b && false then [] else c ∷ rest) ≡ false
kept_head true c rest = refl
kept_head false c rest = refl

pub strip-solid : (c : ℕ) (text : Text) → is_space c ≡ false → is_empty (strip (c ∷ text)) ≡ false
unfolding strip lstrip rstrip
strip-solid c text h =
    rw h (rw h (kept_head (is_empty (rstrip is_space text)) c (rstrip is_space text)))

to_int_nothing : to_int 10 [] ≡ err value_error
unfolding to_int
to_int_nothing = refl

digit-solid : (c : ℕ) → IsDigit c → is_space c ≡ false
unfolding is_space
digit-solid c h = ground arith

-- The line of a network is not blank.
row-solid : (e : Entry) → is_empty (strip (row e)) ≡ false
row-solid e = go (decimal e.id) (to_int-decimal e.id) (decimal-IsDigit e.id)
  where
    go :
        (digits : Text)
        → to_int 10 digits ≡ ok (pos e.id)
        → All IsDigit digits
        → is_empty (strip (digits ++ b'\t' ∷ (e.ssid ++ b'\t' ∷ (e.bssid ++ b'\t' ∷ e.flags))))
          ≡ false
    go [] h all = absurd (err-not-ok (sym to_int_nothing ∙ h))
    go (c ∷ digits) h all = strip-solid c _ (digit-solid c all.0)

-- The fields of a row, the flags put together again.
abbrev fields : Entry → List Text
fields e = decimal e.id ∷ e.ssid ∷ e.bssid ∷ e.flags ∷ []

row_fields-row : (e : Entry) → IsEntry e → row_fields 4 (split b'\t' (row e)) ≡ fields e
unfolding row_fields
row_fields-row e h =
    ap (row_fields 4) (split-row e h)
    ∙ ap (λ (f : Text). decimal e.id ∷ e.ssid ∷ e.bssid ∷ f ∷ []) (join-split b'\t' e.flags)

wide : (e : Entry) → IsEntry e → ltb (length (split b'\t' (row e))) 4 ≡ false
wide e h = rw (split-row e h) (some_more (split b'\t' e.flags) (is_empty-split b'\t' e.flags))
  where
    some_more :
        (more : List Text)
        → is_empty more ≡ false
        → ltb (length (decimal e.id ∷ e.ssid ∷ e.bssid ∷ more)) 4 ≡ false
    some_more [] h = cc
    some_more (m ∷ more) h = ground arith

table_rows-row :
    (entries : List Entry)
    → All IsEntry entries
    → table_rows 4 (map row entries) ≡ map fields entries
unfolding table_rows
table_rows-row [] h = refl
table_rows-row (e ∷ entries) h =
    rw (row-solid e, wide e h.0, row_fields-row e h.0, table_rows-row entries h.1) refl

read_network-fields : (e : Entry) → read_network (fields e) ≡ ok (network_of e)
unfolding read_network
read_network-fields e =
    let read : Result ℤ → Result Network =
      λ id. id >>= λ n. ok (record { id = n; ssid = e.ssid; bssid = e.bssid; flags = e.flags }) in
    ap read (to_int-decimal e.id)

pub readable-ok :
    {A : Type 0} (r : Result A) (n : A) (rest : List A)
    → r ≡ ok n
    → (elim r as (λ x. List A) [ ok a ↦ a ∷ rest | err x ↦ rest ]) ≡ n ∷ rest
readable-ok r n rest h = rw h refl

readable-fields :
    (entries : List Entry) → readable read_network (map fields entries) ≡ map network_of entries
unfolding readable
readable-fields [] = refl
readable-fields (e ∷ entries) =
    readable-ok (read_network (fields e)) (network_of e)
      (readable read_network (map fields entries)) (read_network-fields e)
    ∙ ap (◌∷◌ (network_of e)) (readable-fields entries)

rows_IsLine : (entries : List Entry) → All IsEntry entries → All IsLine (map row entries)
rows_IsLine [] h = tt
rows_IsLine (e ∷ entries) h = (row-IsLine e h.0, rows_IsLine entries h.1)

-- Behind any header line, the rows of LIST_NETWORKS are read back as the networks that they were
-- printed for, all of them and in order, if no field holds an end of a line and no field but the
-- flags, which stand last, holds a tab.
pub parse_networks-row :
    (header : Text) (entries : List Entry)
    → IsLine header
    → All IsEntry entries
    → parse_networks (unlines (header ∷ map row entries)) ≡ map network_of entries
unfolding parse_networks parse_table
parse_networks-row header entries line h =
    ap (λ (lines : List Text). readable read_network (table_rows 4 (drop 1 lines)))
      (splitlines-unlines (header ∷ map row entries) (line, rows_IsLine entries h))
    ∙ ap (readable read_network) (table_rows-row entries h)
    ∙ readable-fields entries
