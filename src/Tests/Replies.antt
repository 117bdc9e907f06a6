-- ===== src/Tests/Replies.antt =====
-- Replies of wpa_ctrl/replies.py.
use wpa_ctrl_py.Replies.Printed.{printable-no_end, is_key-IsVariable}
use wpa_ctrl_py.Replies.Readings.{
  ssid_variable, ssid_text-printed, signal_variables, reading, signal_poll-printed,
}
use wpa_ctrl_py.Replies.Signal.{
  rssi, linkspeed, noise, frequency, status_ssid_bytes, status_ssid_text,
}
use wpa_ctrl_py.Replies.Bss
use wpa_ctrl_py.Text.Utf8.{decode}
use wpa_ctrl_py.Result.{ok}
use wpa_ctrl_py.Base.Int.{pos, negsuc}
use wpa_ctrl_py.Replies.Rows.Scans.{IsScan, scan_row, parse_scan_results-scan_row}
use wpa_ctrl_py.Base.{some, ◌++◌, ◌≡◌, refl, List, [], ◌∷◌, arith, All}
use wpa_ctrl_py.Text.{Bytes, is_space, Text, codes, is_line_end}
use wpa_ctrl_py.Replies.Parse.{parse_variables}
use wpa_ctrl_py.Replies.Parse.Blocks.{Variables, IsVariable, block}
use wpa_ctrl_py.Base.{map}
use wpa_ctrl_py.Text.Lines.{unlines, IsLine}
use wpa_ctrl_py.Replies.Rows.{ScanResult, parse_scan_results, parse_networks}
use wpa_ctrl_py.Replies.Rows.Networks.{Entry, IsEntry, row, network_of, parse_networks-row}

-- A value that holds an equals sign.
abbrev variables : Variables
variables = (codes "k", codes "a=b") ∷ []

variables-IsVariable : All IsVariable variables
unfolding is_line_end
variables-IsVariable = (((omega arith, tt), (refl, tt), (refl, (refl, (refl, tt)))), tt)

abbrev entries : List Entry
entries =
    record { id = 12; ssid = codes "a b"; bssid = codes "any"; flags = codes "[CURRENT]\t" } ∷ []

abbrev header : Text
header = codes "id / ssid"

header-IsLine : IsLine header
unfolding is_line_end
header-IsLine = (refl, (refl, (refl, (refl, (refl, (refl, (refl, (refl, (refl, tt)))))))))

entries-IsEntry : All IsEntry entries
unfolding is_line_end
entries-IsEntry = (
  (
    (omega arith, (omega arith, (omega arith, tt))),
    (omega arith, (omega arith, (omega arith, tt))),
    (refl, (refl, (refl, tt))),
    (refl, (refl, (refl, tt))),
    (refl, (refl, (refl, (refl, (refl, (refl, (refl, (refl, (refl, (refl, tt)))))))))),
  ),
  tt,
)

parse_networks-row_example :
    parse_networks (unlines (header ∷ map row entries)) ≡ map network_of entries
parse_networks-row_example = parse_networks-row header entries header-IsLine entries-IsEntry

-- A signal level below zero, and a tab in the SSID.
abbrev scans : List ScanResult
scans =
    record {
      bssid = codes "b";
      frequency = pos 2412;
      signal_level = negsuc 46;
      flags = codes "[E]";
      ssid = codes "s\t";
    }
    ∷ []

scans-IsScan : All IsScan scans
unfolding is_line_end is_space
scans-IsScan = (
  (
    refl,
    (omega arith, tt),
    (omega arith, (omega arith, (omega arith, tt))),
    (refl, tt),
    (refl, (refl, (refl, tt))),
    (refl, (refl, tt)),
  ),
  tt,
)

parse_scan_results-scan_row_example :
    parse_scan_results (unlines (header ∷ map scan_row scans)) ≡ scans
parse_scan_results-scan_row_example =
    parse_scan_results-scan_row header scans header-IsLine scans-IsScan

-- An SSID of two octets that are one character, behind the BSSID.
abbrev advertised : Bytes
advertised = 0xc3 ∷ 0xa9 ∷ []

abbrev bssid_variable : Text × Text
bssid_variable = (codes "bssid", codes "a")

bssid_variable-IsVariable : IsVariable bssid_variable
bssid_variable-IsVariable = is_key-IsVariable (codes "bssid") (codes "a") refl a-IsLine
  where
    a-IsLine : IsLine (codes "a")
    a-IsLine = (printable-no_end b'a' refl, tt)

ssid_text-printed_example :
    (let d = parse_variables (block ((bssid_variable ∷ []) ++ ssid_variable advertised ∷ [])) in
      (Bss.ssid_bytes d ≡ ok (some advertised))
      × (Bss.ssid_text d ≡ ok (decode advertised))
      × (status_ssid_bytes d ≡ ok (some advertised))
      × (status_ssid_text d ≡ ok (decode advertised)))
ssid_text-printed_example =
    ssid_text-printed advertised (bssid_variable ∷ []) [] (omega arith, (omega arith, tt))
      (bssid_variable-IsVariable, tt) tt tt

signal_poll-printed_example :
    (let d =
        parse_variables (block (signal_variables (negsuc 54) (pos 866) (pos 9999) (pos 5180) [])) in
      (rssi d ≡ ok (reading (negsuc 9998) (negsuc 54)))
      × (linkspeed d ≡ ok (some (pos 866)))
      × (noise d ≡ ok (reading (pos 9999) (pos 9999)))
      × (frequency d ≡ ok (some (pos 5180))))
signal_poll-printed_example =
    signal_poll-printed (negsuc 54) (pos 866) (pos 9999) (pos 5180) [] tt tt tt tt tt
