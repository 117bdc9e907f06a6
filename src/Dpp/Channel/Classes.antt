-- ===== src/Dpp/Channel/Classes.antt =====
-- `dpp_channel` (wpa_ctrl/dpp.py) against the channels of the global operating classes.
use wpa_ctrl_py.Base.{
  ℕ, ◌+◌, ◌*◌, ◌%◌, ◌≤◌, ◌≡◌, ◌≢◌, inl, inr, ◌⊎◌, ◌↔◌, some, arith, Bool-cases, ◌==◌, ==_iff, false,
}
use wpa_ctrl_py.Text.{Text}
use wpa_ctrl_py.Dpp.Channel.{spec, dpp_channel}
use wpa_ctrl_py.Dpp.Channel.Table.{OnRaster, dpp_channel_raster}

-- `IsChannel c n f`: in the global operating class `c` there is the 20 MHz channel `n`, centred on `f`
-- MHz. Between two of them are 20 MHz, but for 2.4 GHz.
pub data IsChannel (c n f : ℕ) : Type 0 where
  class_81 : c ≡ 81 → 1 ≤ n → n ≤ 13 → f ≡ 2407 + 5 * n → IsChannel c n f
  class_82 : c ≡ 82 → n ≡ 14 → f ≡ 2484 → IsChannel c n f
  class_115 : c ≡ 115 → 36 ≤ n → n ≤ 48 → n % 4 ≡ 0 → f ≡ 5000 + 5 * n → IsChannel c n f
  class_118 : c ≡ 118 → 52 ≤ n → n ≤ 64 → n % 4 ≡ 0 → f ≡ 5000 + 5 * n → IsChannel c n f
  class_121 : c ≡ 121 → 100 ≤ n → n ≤ 144 → n % 4 ≡ 0 → f ≡ 5000 + 5 * n → IsChannel c n f
  class_125 : c ≡ 125 → 149 ≤ n → n ≤ 177 → n % 4 ≡ 1 → f ≡ 5000 + 5 * n → IsChannel c n f
  class_131 : (k : ℕ) → c ≡ 131 → k ≤ 58 → n ≡ 1 + 4 * k → f ≡ 5950 + 5 * n → IsChannel c n f
  class_136 : c ≡ 136 → n ≡ 2 → f ≡ 5935 → IsChannel c n f

-- `IsBetween c n f`: `f` stands between two channels of the 5 GHz class `c`, so that the number `n` is
-- no channel of it.
pub data IsBetween (c n f : ℕ) : Type 0 where
  in_115 : c ≡ 115 → 36 ≤ n → n ≤ 48 → n % 4 ≢ 0 → f ≡ 5000 + 5 * n → IsBetween c n f
  in_118 : c ≡ 118 → 52 ≤ n → n ≤ 64 → n % 4 ≢ 0 → f ≡ 5000 + 5 * n → IsBetween c n f
  in_121 : c ≡ 121 → 100 ≤ n → n ≤ 144 → n % 4 ≢ 0 → f ≡ 5000 + 5 * n → IsBetween c n f
  in_125 : c ≡ 125 → 149 ≤ n → n ≤ 177 → n % 4 ≢ 1 → f ≡ 5000 + 5 * n → IsBetween c n f

ne-of : (m n : ℕ) → m == n ≡ false → m ≢ n
ne-of m n h = ground arith

OnRaster-class : (c n f : ℕ) → OnRaster c n f → IsChannel c n f ⊎ IsBetween c n f
OnRaster-class c n f (OnRaster.band_81 hc lo hi hf) = inl (class_81 hc lo hi hf)
OnRaster-class c n f (OnRaster.band_82 hc hn hf) = inl (class_82 hc hn hf)
OnRaster-class c n f (OnRaster.band_115 hc lo hi hf) = elim (Bool-cases (n % 4 == 0)) [
  | inl at ↦ inl (class_115 hc lo hi ((==_iff (n % 4) 0).0 at) hf)
  | inr off ↦ inr (in_115 hc lo hi (ne-of (n % 4) 0 off) hf)
]
OnRaster-class c n f (OnRaster.band_118 hc lo hi hf) = elim (Bool-cases (n % 4 == 0)) [
  | inl at ↦ inl (class_118 hc lo hi ((==_iff (n % 4) 0).0 at) hf)
  | inr off ↦ inr (in_118 hc lo hi (ne-of (n % 4) 0 off) hf)
]
OnRaster-class c n f (OnRaster.band_121 hc lo hi hf) = elim (Bool-cases (n % 4 == 0)) [
  | inl at ↦ inl (class_121 hc lo hi ((==_iff (n % 4) 0).0 at) hf)
  | inr off ↦ inr (in_121 hc lo hi (ne-of (n % 4) 0 off) hf)
]
OnRaster-class c n f (OnRaster.band_125 hc lo hi hf) = elim (Bool-cases (n % 4 == 1)) [
  | inl at ↦ inl (class_125 hc lo hi ((==_iff (n % 4) 1).0 at) hf)
  | inr off ↦ inr (in_125 hc lo hi (ne-of (n % 4) 1 off) hf)
]
OnRaster-class c n f (OnRaster.band_131 k hc hk hn hf) = inl (class_131 k hc hk hn hf)
OnRaster-class c n f (OnRaster.band_136 hc hn hf) = inl (class_136 hc hn hf)

class-OnRaster : (c n f : ℕ) → IsChannel c n f ⊎ IsBetween c n f → OnRaster c n f
class-OnRaster c n f (inl (class_81 hc lo hi hf)) = OnRaster.band_81 hc lo hi hf
class-OnRaster c n f (inl (class_82 hc hn hf)) = OnRaster.band_82 hc hn hf
class-OnRaster c n f (inl (class_115 hc lo hi h hf)) = OnRaster.band_115 hc lo hi hf
class-OnRaster c n f (inl (class_118 hc lo hi h hf)) = OnRaster.band_118 hc lo hi hf
class-OnRaster c n f (inl (class_121 hc lo hi h hf)) = OnRaster.band_121 hc lo hi hf
class-OnRaster c n f (inl (class_125 hc lo hi h hf)) = OnRaster.band_125 hc lo hi hf
class-OnRaster c n f (inl (class_131 k hc hk hn hf)) = OnRaster.band_131 k hc hk hn hf
class-OnRaster c n f (inl (class_136 hc hn hf)) = OnRaster.band_136 hc hn hf
class-OnRaster c n f (inr (in_115 hc lo hi h hf)) = OnRaster.band_115 hc lo hi hf
class-OnRaster c n f (inr (in_118 hc lo hi h hf)) = OnRaster.band_118 hc lo hi hf
class-OnRaster c n f (inr (in_121 hc lo hi h hf)) = OnRaster.band_121 hc lo hi hf
class-OnRaster c n f (inr (in_125 hc lo hi h hf)) = OnRaster.band_125 hc lo hi hf

-- A spec is given for a frequency exactly when it names a channel of a global operating class that
-- is centred there, or, against the intention, the number of a frequency between two channels of a 5
-- GHz class. So every channel has its spec, at its own frequency alone, and nothing is rounded; but
-- in 5 GHz a spec may name no channel.
pub dpp_channel_iff :
    (f : ℕ) (t : Text)
    → (dpp_channel f ≡ some t)
      ↔ ((c : ℕ) × (n : ℕ) × ((IsChannel c n f ⊎ IsBetween c n f) × (t ≡ spec c n)))
dpp_channel_iff f t = (
  λ e.
      let (c, n, (on, same)) = (dpp_channel_raster f t).0 e in
      (c, n, (OnRaster-class c n f on, same)),
  λ (c, n, (class, same)). (dpp_channel_raster f t).1 (c, n, (class-OnRaster c n f class, same)),
)
