-- ===== src/Dpp/Configurator/Secrets.antt =====
-- Which secret the parameters of a Configurator carry (`dpp_configurator_params`, wpa_ctrl/dpp.py).
use wpa_ctrl_py.Base.{
  ◌≡◌, ◌≢◌, ◌↔◌, Bool-cases, inl, inr, refl, ap, true, false, [], ◌∷◌, Option, none, some, arith,
}
use wpa_ctrl_py.Result.{Error, Result, ok, err, ◌>>=◌, bind-eq-ok}
use wpa_ctrl_py.Text.{Text, Bytes, codes, to_hex}
use wpa_ctrl_py.Text.Utf8.{encode}
use wpa_ctrl_py.Ssid.Quote.{is_raw_psk}
use wpa_ctrl_py.Dpp.Params.{Params, Octets, text, raw, dpp_hex, format_params}
use wpa_ctrl_py.Dpp.Configurator.{bad_psk, secret_params, all_params, dpp_configurator_params}

-- The octets that `dpp_hex` prints.
abbrev pub octets_of : Octets → Result Bytes
octets_of (text t) = encode t
octets_of (raw bytes) = ok bytes

abbrev pub IsGiven : Octets → Type 0
IsGiven (text t) = t ≢ []
IsGiven (raw bytes) = bytes ≢ []

dpp_hex-eq-ok :
    (o : Octets) {hex : Text}
    → dpp_hex o ≡ ok hex
    → IsGiven o × ((bytes : Bytes) × (octets_of o ≡ ok bytes) × (hex ≡ to_hex bytes))
unfolding dpp_hex
dpp_hex-eq-ok (text []) h = cc
dpp_hex-eq-ok (text (c ∷ t)) h =
    let (bytes, e, p) = bind-eq-ok (encode (c ∷ t)) (λ b. ok (to_hex b)) h in
    (cc, (bytes, e, ground arith))
dpp_hex-eq-ok (raw []) h = cc
dpp_hex-eq-ok (raw (b ∷ bytes)) h = (cc, (b ∷ bytes, refl, ground arith))

dpp_hex-ok :
    (o : Octets) {bytes : Bytes}
    → IsGiven o
    → octets_of o ≡ ok bytes
    → dpp_hex o ≡ ok (to_hex bytes)
unfolding dpp_hex
dpp_hex-ok (text []) g h = absurd (g refl)
dpp_hex-ok (text (c ∷ t)) g h = rw h
dpp_hex-ok (raw []) g h = absurd (g refl)
dpp_hex-ok (raw (b ∷ bytes)) g h = ap (λ r. r >>= λ bs. ok (to_hex bs)) h

-- `Carries passphrase psk secret`: the arguments that are accepted, and the parameters that they
-- become. The last case is an empty passphrase, which becomes no parameter at all.
pub data Carries (passphrase psk : Option Text) (secret : Params) : Type 0 where
  phrase :
      (t : Text) (bytes : Bytes)
      → passphrase ≡ some t
      → t ≢ []
      → psk ≡ none
      → encode t ≡ ok bytes
      → secret ≡ (codes "pass", some (to_hex bytes)) ∷ []
      → Carries passphrase psk secret
  key :
      (t : Text)
      → passphrase ≡ none
      → psk ≡ some t
      → is_raw_psk t ≡ true
      → secret ≡ (codes "psk", some t) ∷ []
      → Carries passphrase psk secret
  nothing :
      passphrase ≡ some []
      → psk ≡ none
      → secret ≡ (codes "psk", none) ∷ []
      → Carries passphrase psk secret

raw_psk_lem : (t : Text) → bad_psk (some t) ≡ false → is_raw_psk t ≡ true
unfolding is_raw_psk
raw_psk_lem t h = ground arith

raw_psk_ok : (t : Text) → is_raw_psk t ≡ true → bad_psk (some t) ≡ false
unfolding is_raw_psk
raw_psk_ok t h = ground arith

-- The arguments of an accepted call.
err-ne-ok : {e : Error} {t : Text} → ¬ (err e ≡ ok t)
err-ne-ok h = cc

module _ (conf : Text) (ssid : Octets) (configurator : Option Text) (extra : Params) where
  abbrev pub Accepted : Option Text → Option Text → Text → Type 0
  Accepted passphrase psk out =
      (bytes : Bytes) × (secret : Params) × (IsGiven ssid
        × (octets_of ssid ≡ ok bytes)
        × Carries passphrase psk secret
        × (out ≡ format_params (all_params conf (to_hex bytes) secret configurator extra)))

  finish :
      (passphrase psk : Option Text) (secret : Params) {out : Text}
      → Carries passphrase psk secret
      → (dpp_hex ssid >>= λ hex. ok (format_params (all_params conf hex secret configurator extra)))
        ≡ ok out
      → Accepted passphrase psk out
  finish passphrase psk secret c h =
      let (hex, e, p) = bind-eq-ok (dpp_hex ssid) _ h in
      let (given, (bytes, b, same)) = dpp_hex-eq-ok ssid e in
      (bytes, secret, (given, b, c, rw (← same) (ground arith)))

  accepted :
      (passphrase psk : Option Text) {out : Text}
      → dpp_configurator_params conf ssid passphrase psk configurator extra ≡ ok out
      → Accepted passphrase psk out
  unfolding dpp_configurator_params secret_params
  accepted none none h = cc
  accepted (some t) (some k) h = cc
  accepted none (some k) h = elim (Bool-cases (bad_psk (some k))) [
    | inl bad ↦ absurd (err-ne-ok (rw bad at h))
    | inr good ↦ finish none (some k) _ (key k refl refl (raw_psk_lem k good) refl) (rw good at h)
  ]
  accepted (some []) none h = finish (some []) none _ (nothing refl refl refl) h
  accepted (some (c ∷ t)) none h =
      let (secret, e, rest) = bind-eq-ok (secret_params (some (c ∷ t)) none) _ h in
      let (hex, d, same) = bind-eq-ok (dpp_hex (text (c ∷ t))) _ e in
      let (given, (bytes, b, is_hex)) = dpp_hex-eq-ok (text (c ∷ t)) d in
      finish (some (c ∷ t)) none secret (phrase (c ∷ t) bytes refl given refl b (cc (same, is_hex)))
        rest

  accept_as :
      (passphrase psk : Option Text) (secret : Params) {hex : Text}
      → Carries passphrase psk secret
      → dpp_hex ssid ≡ ok hex
      → dpp_configurator_params conf ssid passphrase psk configurator extra
        ≡ ok (format_params (all_params conf hex secret configurator extra))
  unfolding dpp_configurator_params secret_params
  accept_as passphrase psk secret (phrase [] bytes p n k b s) e = absurd (n refl)
  accept_as passphrase psk secret (phrase (c ∷ t) bytes p n k b s) e =
      rw (p, k, s, dpp_hex-ok (text (c ∷ t)) n b, e)
  accept_as passphrase psk secret (key t p k r s) e = rw (p, k, s, raw_psk_ok t r, e)
  accept_as passphrase psk secret (nothing p k s) e = rw (p, k, s, e)

  accept :
      (passphrase psk : Option Text) {out : Text}
      → Accepted passphrase psk out
      → dpp_configurator_params conf ssid passphrase psk configurator extra ≡ ok out
  accept passphrase psk (bytes, secret, (given, b, c, e)) =
      rw e (accept_as passphrase psk secret c (dpp_hex-ok ssid given b))

  -- The call succeeds exactly for an SSID that is there and one of three kinds of secret, and the
  -- parameters then describe just these: a passphrase in hex, a raw key as it is, or, for an empty
  -- passphrase, no secret.
  pub dpp_configurator_params_iff :
      (passphrase psk : Option Text) (out : Text)
      → (dpp_configurator_params conf ssid passphrase psk configurator extra ≡ ok out)
        ↔ Accepted passphrase psk out
  dpp_configurator_params_iff passphrase psk out = (accepted passphrase psk, accept passphrase psk)
