-- ===== src/Client/Commands/Wording.antt =====
-- How the commands of wpa_ctrl/client.py are put into words, and their replies read.
use Prim.Native.String.{String}
use wpa_ctrl_py.Base.{List, [], ◌∷◌, ◌++◌, Option, none, some, if◌then◌else◌, is_empty}
use wpa_ctrl_py.Base.Int.{ℤ}
use wpa_ctrl_py.Result.{Result, ok, err}
use wpa_ctrl_py.Text.{Text, codes, strip}
use wpa_ctrl_py.Text.Number.{decimal_ℤ}
use wpa_ctrl_py.Transport.Exec.{Exec, ◌>>=◌, pure, lift}
use wpa_ctrl_py.Client.State.{Client}
use wpa_ctrl_py.Client.Request.{request}
use wpa_ctrl_py.Text.{join}
use wpa_ctrl_py.Text.Number.{to_int}
use wpa_ctrl_py.Result.{command_failed}
use wpa_ctrl_py.Client.Request.{command}

abbrev pub one_line : List Text → Text
one_line items = join (codes " ") items

-- `self.command(...)`, with the default timeout.
abbrev pub tell : List Text → Exec Client (Unit {0})
tell items = command (one_line items) none

-- `self.request(...)`, and what is made of its reply.
abbrev pub ask : {A : Type 0} → List Text → (Text → A) → Exec Client A
ask items read = request (one_line items) none >>= λ reply. pure (read reply)

abbrev pub ask_text : List Text → Exec Client Text
ask_text items = ask items strip

-- A word that is there only with its value.
abbrev pub optional : String → Option Text → List Text
optional prefix none = []
optional prefix (some value) = (codes prefix ++ value) ∷ []

abbrev pub map_option : {A B : Type 0} → (A → B) → Option A → Option B
map_option f none = none
map_option f (some a) = some (f a)

abbrev pub both : Option ℤ → Option ℤ → List Text
both (some period) (some interval) = decimal_ℤ period ∷ decimal_ℤ interval ∷ []
both _ _ = []

-- `f"{command} {arguments}" if arguments else command`.
abbrev pub with_arguments : List Text → Text → List Text
with_arguments items arguments = if is_empty arguments then items else items ++ arguments ∷ []

-- `int(reply)`, and the handler of its ValueError.
abbrev pub identifier : Text → Text → Result ℤ
identifier text reply = elim (to_int 10 reply) [
  | ok n ↦ ok n
  | err e ↦ err (command_failed text reply)
]

-- `_dpp_id`.
abbrev pub dpp_id : Text → Text → Exec Client ℤ
dpp_id name arguments =
    let full = one_line (with_arguments (name ∷ []) arguments) in
    request full none >>= λ reply. lift (identifier full (strip reply))

-- `[line for line in lines if line]`.
abbrev pub nonempty : List Text → List Text
nonempty [] = []
nonempty (line ∷ lines) = if is_empty line then nonempty lines else line ∷ nonempty lines

-- None, True, or the number of a persistent group as it is written.
pub data Persistent : Type 0 where
  absent : Persistent
  any_group : Persistent
  group : Text → Persistent

abbrev pub persistent_words : Persistent → List Text
persistent_words absent = []
persistent_words any_group = codes "persistent" ∷ []
persistent_words (group id) = (codes "persistent=" ++ id) ∷ []
