-- ===== src/Transport/Exec.antt =====
-- Methods that change an object and may raise: what was done before a raise stays done.
use wpa_ctrl_py.Base.{◌∙◌, ap, ◌≡◌, refl}
use wpa_ctrl_py.Result.{err-not-ok, Error, Result, ok, err}

abbrev pub Exec {ℓ κ} : Type ℓ → Type κ → Type (ℓ ⊔ κ)
Exec S A = S → Result A × S

abbrev pub continue {ℓ κ μ} :
    {S : Type ℓ} {A : Type κ} {B : Type μ} → Result A → (A → Exec S B) → Exec S B
continue (ok a) f s = f a s
continue (err e) f s = (err e, s)

module _ {ℓ} {S A B : Type ℓ} where
  infixl 5 ◌>>=◌
  abbrev pub ◌>>=◌ : Exec S A → (A → Exec S B) → Exec S B
  ◌>>=◌ m f s = let (r, s') = m s in continue r f s'

module _ {S B : Type 0} where
  infixl 5 ◌>>◌
  abbrev pub ◌>>◌ : Exec S (Unit {0}) → Exec S B → Exec S B
  ◌>>◌ m k s = let (r, s') = m s in continue r (λ _. k) s'

module _ {S A : Type 0} where
  abbrev pub pure : A → Exec S A
  pure a s = (ok a, s)

  abbrev pub raise : Error → Exec S A
  raise e s = (err e, s)

  -- `m.0` and `m.1` of a run.
  abbrev pub outcome : Exec S A → S → Result A
  outcome m s = (m s).0

  abbrev pub after : Exec S A → S → S
  after m s = (m s).1

module _ {S : Type 0} where
  abbrev pub modify : (S → S) → Exec S (Unit {0})
  modify f s = (ok tt, f s)

  abbrev pub gets : {A : Type 0} → (S → A) → Exec S A
  gets f s = (ok (f s), s)

  abbrev pub lift : {A : Type 0} → Result A → Exec S A
  lift r s = (r, s)

-- Two steps that succeed, and what stands between them.
module _ {S B : Type 0} where
  pub then-eq-ok :
      (m : Exec S Unit) (k : Exec S B) (s s' : S) (b : B)
      → (m >> k) s ≡ (ok b, s')
      → (t : S) × (m s ≡ (ok tt, t)) × (k t ≡ (ok b, s'))
  then-eq-ok m k s s' b h = go (m s).0 (m s).1 refl h
    where
      go :
          (r : Result Unit) (t : S)
          → m s ≡ (r, t)
          → continue r (λ _. k) t ≡ (ok b, s')
          → (t : S) × (m s ≡ (ok tt, t)) × (k t ≡ (ok b, s'))
      go (ok u) t e h = (t, e, h)
      go (err x) t e h = absurd (err-not-ok (ap (λ (run : Result B × S). run.0) h))

-- Two steps that succeed are followed by the rest.
module _ {S B : Type 0} where
  pub run-after :
      (m k : Exec S Unit) (f : Exec S B) (s s' : S)
      → (m >> k) s ≡ (ok tt, s')
      → (m >> (k >> f)) s ≡ f s'
  run-after m k f s s' h =
      let (t, e, e') = then-eq-ok m k s s' tt h in
      ap (λ (run : Result Unit × S). continue run.0 (λ _. k >> f) run.1) e
      ∙ ap (λ (run : Result Unit × S). continue run.0 (λ _. f) run.1) e'
