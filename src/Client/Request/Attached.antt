-- ===== src/Client/Request/Attached.antt =====
-- The flag `attached` of wpa_ctrl/client.py, which says whether the daemon sends events.
use wpa_ctrl_py.Base.{◌≡◌, refl, ap, ◌∙◌, Bool, true, false, none}
use wpa_ctrl_py.Result.{Result, ok, err}
use wpa_ctrl_py.Text.{Text, codes}
use wpa_ctrl_py.Transport.Exec.{modify, Exec, outcome, after, continue}
use wpa_ctrl_py.Client.State.{Client}
use wpa_ctrl_py.Client.Request.Keeping.{Keeping, request-keeps}
use wpa_ctrl_py.Client.Request.{command, attach, detach}
use wpa_ctrl_py.Client.Commands.Accepted.{command-Judged}

attached-Keeping : Keeping (λ c d. d.attached ≡ c.attached)
attached-Keeping = record {
  stays = λ c. refl;
  follows = λ first second. second ∙ first;
  receives = λ timeout c. refl;
  sets_aside = λ e c. refl;
}

-- What the flag becomes.
abbrev pub flag_after : Result (Unit {0}) → Bool → Bool → Bool
flag_after (ok u) said was = said
flag_after (err e) said was = was

-- `attach` and `detach` end as their commands do. The flag is set exactly when the daemon accepts
-- ATTACH, cleared exactly when it accepts DETACH, and left as it was by a refusal or an error.
pub attached-attach :
    (c : Client)
    → (outcome attach c ≡ outcome (command (codes "ATTACH") none) c)
      × ((after attach c).attached
          ≡ flag_after (outcome (command (codes "ATTACH") none) c) true c.attached)
      × (outcome detach c ≡ outcome (command (codes "DETACH") none) c)
      × ((after detach c).attached
          ≡ flag_after (outcome (command (codes "DETACH") none) c) false c.attached)
unfolding attach detach
attached-attach c =
    let on = command (codes "ATTACH") none c in
    let off = command (codes "DETACH") none c in
    let kept = λ (text : Text).
      ap (λ (d : Client). d.attached) (command-Judged text none c).1
      ∙ request-keeps attached-Keeping (λ d. refl) (λ text' d. refl) text none c in
    (
      ends true on.0 on.1,
      flag true on.0 on.1 (kept (codes "ATTACH")),
      ends false off.0 off.1,
      flag false off.0 off.1 (kept (codes "DETACH")),
    )
  where
    turn : Bool → Exec Client (Unit {0})
    turn said = modify (λ d. record d { attached = said })

    ends :
        (said : Bool) (r : Result (Unit {0})) (d : Client) → (continue r (λ _. turn said) d).0 ≡ r
    ends said (ok u) d = refl
    ends said (err e) d = refl

    flag :
        (said : Bool) (r : Result (Unit {0})) (d : Client)
        → d.attached ≡ c.attached
        → (continue r (λ _. turn said) d).1.attached ≡ flag_after r said c.attached
    flag said (ok u) d same = refl
    flag said (err e) d same = same
