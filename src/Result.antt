-- ===== src/Result.antt =====
-- The exceptions of the program (wpa_ctrl/errors.py, and the ones of the language that its code
-- raises or lets through), and the results that carry them.
use wpa_ctrl_py.Base.{ap, Bool, true, false, ℕ, List, ◌≡◌, refl, ◌⊎◌, inl, inr}

-- `value_error` is a plain ValueError. `unicode_error` is the UnicodeEncodeError of `str.encode`
-- at a surrogate, a subclass of ValueError that no handler here tells apart from it.
-- `os_error` is an OSError that no handler meets. `endless` is no exception: it says that a loop of
-- the model has run out of turns, where the program would go on.
-- The other three are the subclasses of `WpaCtrlError`; messages are not kept.
pub data Error : Type 0 where
  value_error : Error
  unicode_error : Error
  os_error : Error
  endless : Error
  connection_error : Error
  timeout_error : Error
  command_failed : List ℕ → List ℕ → Error

-- Which exceptions are WpaCtrlError.
abbrev pub is_wpa_error : Error → Bool
is_wpa_error value_error = false
is_wpa_error unicode_error = false
is_wpa_error os_error = false
is_wpa_error endless = false
is_wpa_error connection_error = true
is_wpa_error timeout_error = true
is_wpa_error (command_failed text reply) = true

pub data Result {ℓ} (A : Type ℓ) : Type ℓ where
  ok : A → Result A
  err : Error → Result A

infixl 5 ◌>>=◌
abbrev pub ◌>>=◌ {ℓ κ} : {V : Type ℓ} {W : Type κ} → Result V → (V → Result W) → Result W
err e >>= next = err e
ok v >>= next = next v

-- To split on a computed result and keep the equation.
pub Result-cases {ℓ} :
    {V : Type ℓ} (r : Result V) → ((v : V) × (r ≡ ok v)) ⊎ ((e : Error) × (r ≡ err e))
Result-cases (err e) = inr (e, refl)
Result-cases (ok v) = inl (v, refl)

-- A chain that succeeds has a first link that does.
pub bind-eq-ok {ℓ κ} :
    {V : Type ℓ} {W : Type κ} (r : Result V) (next : V → Result W) {w : W}
    → (r >>= next) ≡ ok w
    → (v : V) × (r ≡ ok v) × (next v ≡ ok w)
bind-eq-ok (err e) next done = cc
bind-eq-ok (ok v) next done = (v, refl, done)

pub err-not-ok {ℓ} : {A : Type ℓ} {e : Error} {a : A} → ◌≡◌ {A = Result A} (err e) (ok a) → ⊥
err-not-ok h = cc

pub ok-injective {ℓ} : {A : Type ℓ} {a b : A} → ◌≡◌ {A = Result A} (ok a) (ok b) → a ≡ b
ok-injective {A} {a} h = ap (λ (r : Result A). elim r [ ok v ↦ v | err e ↦ a ]) h
