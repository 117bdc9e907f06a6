-- ===== src/Dpp/Channel/Table.antt =====
-- Which numbers `dpp_channel` (wpa_ctrl/dpp.py) gives at which frequencies.
use wpa_ctrl_py.Base.{
  ℕ, ◌+◌, ◌-◌, ◌*◌, ◌/◌, ◌%◌, ◌≤◌, ◌≡◌, refl, sym, ap, ◌∙◌, inl, inr, true, none, some, arith,
  Bool-cases, ◌==◌, ◌&&◌, ◌↔◌, if◌then◌else◌, All, [], ◌∷◌,
}
use mathlib.Core.Path.{ap₂}
use wpa_ctrl_py.Text.{Text, Partition, partition, between}
use wpa_ctrl_py.Text.Laws.{Lacks, partition-append}
use wpa_ctrl_py.Text.Number.{decimal, to_int}
use wpa_ctrl_py.Text.Number.RoundTrip.{IsDigit, decimal-IsDigit, to_int-decimal}
use wpa_ctrl_py.Dpp.Channel.{spec, five_ghz_classes, five_ghz_channel, six_ghz_channel, dpp_channel}

-- `OnRaster c n f`: what the code takes for the channel `n` of the operating class `c` on `f` MHz. In
-- the 5 GHz bands it takes every step of 5 MHz.
pub data OnRaster (c n f : ℕ) : Type 0 where
  band_81 : c ≡ 81 → 1 ≤ n → n ≤ 13 → f ≡ 2407 + 5 * n → OnRaster c n f
  band_82 : c ≡ 82 → n ≡ 14 → f ≡ 2484 → OnRaster c n f
  band_115 : c ≡ 115 → 36 ≤ n → n ≤ 48 → f ≡ 5000 + 5 * n → OnRaster c n f
  band_118 : c ≡ 118 → 52 ≤ n → n ≤ 64 → f ≡ 5000 + 5 * n → OnRaster c n f
  band_121 : c ≡ 121 → 100 ≤ n → n ≤ 144 → f ≡ 5000 + 5 * n → OnRaster c n f
  band_125 : c ≡ 125 → 149 ≤ n → n ≤ 177 → f ≡ 5000 + 5 * n → OnRaster c n f
  band_131 : (k : ℕ) → c ≡ 131 → k ≤ 58 → n ≡ 1 + 4 * k → f ≡ 5950 + 5 * n → OnRaster c n f
  band_136 : c ≡ 136 → n ≡ 2 → f ≡ 5935 → OnRaster c n f

-- Each of these is given at its frequency.
dpp_channel_complete : (c n f : ℕ) → OnRaster c n f → dpp_channel f ≡ some (spec c n)
unfolding dpp_channel
dpp_channel_complete c n f (band_81 hc lo hi hf) = ground arith
dpp_channel_complete c n f (band_131 k hc hk hn hf) = ground arith
dpp_channel_complete c n f h = ground arith

abbrev At : ℕ → ℕ → ℕ → Text → Type 0
At c n f t = OnRaster c n f × (t ≡ spec c n)

channel_of :
    (f : ℕ) (t : Text) (c n : ℕ)
    → some (spec c n) ≡ some t
    → OnRaster c n f
    → (c : ℕ) × (n : ℕ) × At c n f t
channel_of f t c n e h = (c, n, (h, ground arith))

none-ne-some : (t : Text) → ¬ (none ≡ some t)
none-ne-some t h = cc

six_ghz_sound : (f : ℕ) (t : Text) → six_ghz_channel f ≡ some t → (c : ℕ) × (n : ℕ) × At c n f t
unfolding six_ghz_channel
six_ghz_sound f t e = elim (Bool-cases (f == 5935)) [
  | inl p ↦ channel_of f t 136 2 (rw p at e) (band_136 refl refl (ground arith))
  | inr p ↦ elim (Bool-cases (between 5955 7115 f && (f - 5955) % 20 == 0)) [
    | inl q ↦
        channel_of f t 131 ((f - 5950) / 5) (rw (p, q) at e)
          (band_131 ((f - 5955) / 20) refl (ground arith) (ground arith) (ground arith))
    | inr q ↦ absurd (none-ne-some t (rw (p, q) at e))
  ]
]

module _ (f : ℕ) (t : Text) (grid : (between 5180 5885 f && (f - 5180) % 5 == 0) ≡ true) where
  five_ghz_sound :
      five_ghz_channel five_ghz_classes ((f - 5000) / 5) (six_ghz_channel f) ≡ some t
      → (c : ℕ) × (n : ℕ) × At c n f t
  five_ghz_sound e = elim (Bool-cases (between 36 48 ((f - 5000) / 5))) [
    | inl p ↦
        channel_of f t 115 _ (rw p at e)
          (band_115 refl (ground arith) (ground arith) (ground arith))
    | inr p ↦ elim (Bool-cases (between 52 64 ((f - 5000) / 5))) [
      | inl q ↦
          channel_of f t 118 _ (rw (p, q) at e)
            (band_118 refl (ground arith) (ground arith) (ground arith))
      | inr q ↦ elim (Bool-cases (between 100 144 ((f - 5000) / 5))) [
        | inl r ↦
            channel_of f t 121 _ (rw (p, q, r) at e)
              (band_121 refl (ground arith) (ground arith) (ground arith))
        | inr r ↦ elim (Bool-cases (between 149 177 ((f - 5000) / 5))) [
          | inl s ↦
              channel_of f t 125 _ (rw (p, q, r, s) at e)
                (band_125 refl (ground arith) (ground arith) (ground arith))
          | inr s ↦ six_ghz_sound f t (rw (p, q, r, s) at e)
        ]
      ]
    ]
  ]

-- Nothing else is given.
dpp_channel_sound : (f : ℕ) (t : Text) → dpp_channel f ≡ some t → (c : ℕ) × (n : ℕ) × At c n f t
unfolding dpp_channel
dpp_channel_sound f t e = elim (Bool-cases (between 2412 2472 f && (f - 2412) % 5 == 0)) [
  | inl p ↦
      channel_of f t 81 _ (rw p at e) (band_81 refl (ground arith) (ground arith) (ground arith))
  | inr p ↦ elim (Bool-cases (f == 2484)) [
    | inl q ↦ channel_of f t 82 14 (rw (p, q) at e) (band_82 refl refl (ground arith))
    | inr q ↦ elim (Bool-cases (between 5180 5885 f && (f - 5180) % 5 == 0)) [
      | inl r ↦ five_ghz_sound f t r (rw (p, q, r) at e)
      | inr r ↦ six_ghz_sound f t (rw (p, q, r) at e)
    ]
  ]
]

pub dpp_channel_raster :
    (f : ℕ) (t : Text)
    → (dpp_channel f ≡ some t) ↔ ((c : ℕ) × (n : ℕ) × (OnRaster c n f × (t ≡ spec c n)))
dpp_channel_raster f t =
    (dpp_channel_sound f t, λ (c, n, at). dpp_channel_complete c n f at.0 ∙ ap some (sym at.1))

digit-Lacks : (text : Text) → All IsDigit text → Lacks b'/' text
digit-Lacks [] h = tt
digit-Lacks (c ∷ text) h = ground (arith, digit-Lacks text)

decimal-injective : (m n : ℕ) → decimal m ≡ decimal n → m ≡ n
decimal-injective m n e =
    let same = sym (to_int-decimal m) ∙ ap (to_int 10) e ∙ to_int-decimal n in ground arith

spec-partition :
    (c n : ℕ)
    → partition b'/' (spec c n) ≡ record { before = decimal c; found = true; after = decimal n }
unfolding spec
spec-partition c n =
    partition-append b'/' (decimal c) (decimal n) (digit-Lacks _ (decimal-IsDigit c))

spec-injective : (c n d m : ℕ) → spec c n ≡ spec d m → (c ≡ d) × (n ≡ m)
spec-injective c n d m e =
    let same = sym (spec-partition c n) ∙ ap (partition b'/') e ∙ spec-partition d m in
    (
      decimal-injective c d (ap (λ (p : Partition). p.before) same),
      decimal-injective n m (ap (λ (p : Partition). p.after) same),
    )

-- The centre frequency, as a function of the class and the channel.
abbrev centre : ℕ → ℕ → ℕ
centre c n =
    if c == 81
    then 2407 + 5 * n
    else if c == 82
    then 2484
    else if c == 131
    then 5950 + 5 * n
    else if c == 136
    then 5935
    else 5000 + 5 * n

OnRaster-centre : (c n f : ℕ) → OnRaster c n f → f ≡ centre c n
OnRaster-centre c n f (band_81 hc lo hi hf) = ground arith
OnRaster-centre c n f h = ground arith

-- Two frequencies never share a spec.
pub dpp_channel-injective :
    (f g : ℕ) (t : Text) → dpp_channel f ≡ some t → dpp_channel g ≡ some t → f ≡ g
dpp_channel-injective f g t p q =
    let (c, n, (h, e)) = dpp_channel_sound f t p in
    let (d, m, (k, e')) = dpp_channel_sound g t q in
    let (same_class, same_channel) = spec-injective c n d m (sym e ∙ e') in
    OnRaster-centre c n f h ∙ ap₂ centre same_class same_channel ∙ sym (OnRaster-centre d m g k)
