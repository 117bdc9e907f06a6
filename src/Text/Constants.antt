-- ===== src/Text/Constants.antt =====
-- The constants of a Python module or class, with their values.
use Prim.Native.String.{String}
use wpa_ctrl_py.Base.{ℕ}
use wpa_ctrl_py.Text.{Text, codes}

pub record Constant : Type 0 where
  pub attribute : Text
  pub value : Text

abbrev pub constant : String → String → Constant
constant attribute value = record { attribute = codes attribute; value = codes value }

abbrev pub number : String → ℕ → Text × ℕ
number attribute value = (codes attribute, value)
