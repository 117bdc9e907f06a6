-- ===== src/Text/Upper/Special.antt =====
-- The characters whose upper-case form is several characters, with the form. From Unicode 14.
use wpa_ctrl_py.Base.{ℕ, List, [], ◌∷◌}

abbrev pub upper_special : List (ℕ × List ℕ)
upper_special =
    (0xdf, 83 ∷ 83 ∷ [])
    ∷ (0x149, 0x2bc ∷ 78 ∷ [])
    ∷ (0x1f0, 74 ∷ 0x30c ∷ [])
    ∷ (0x390, 0x399 ∷ 0x308 ∷ 0x301 ∷ [])
    ∷ (0x3b0, 0x3a5 ∷ 0x308 ∷ 0x301 ∷ [])
    ∷ (0x587, 0x535 ∷ 0x552 ∷ [])
    ∷ (0x1e96, 72 ∷ 0x331 ∷ [])
    ∷ (0x1e97, 84 ∷ 0x308 ∷ [])
    ∷ (0x1e98, 87 ∷ 0x30a ∷ [])
    ∷ (0x1e99, 89 ∷ 0x30a ∷ [])
    ∷ (0x1e9a, 65 ∷ 0x2be ∷ [])
    ∷ (0x1f50, 0x3a5 ∷ 0x313 ∷ [])
    ∷ (0x1f52, 0x3a5 ∷ 0x313 ∷ 0x300 ∷ [])
    ∷ (0x1f54, 0x3a5 ∷ 0x313 ∷ 0x301 ∷ [])
    ∷ (0x1f56, 0x3a5 ∷ 0x313 ∷ 0x342 ∷ [])
    ∷ (0x1f80, 0x1f08 ∷ 0x399 ∷ [])
    ∷ (0x1f81, 0x1f09 ∷ 0x399 ∷ [])
    ∷ (0x1f82, 0x1f0a ∷ 0x399 ∷ [])
    ∷ (0x1f83, 0x1f0b ∷ 0x399 ∷ [])
    ∷ (0x1f84, 0x1f0c ∷ 0x399 ∷ [])
    ∷ (0x1f85, 0x1f0d ∷ 0x399 ∷ [])
    ∷ (0x1f86, 0x1f0e ∷ 0x399 ∷ [])
    ∷ (0x1f87, 0x1f0f ∷ 0x399 ∷ [])
    ∷ (0x1f88, 0x1f08 ∷ 0x399 ∷ [])
    ∷ (0x1f89, 0x1f09 ∷ 0x399 ∷ [])
    ∷ (0x1f8a, 0x1f0a ∷ 0x399 ∷ [])
    ∷ (0x1f8b, 0x1f0b ∷ 0x399 ∷ [])
    ∷ (0x1f8c, 0x1f0c ∷ 0x399 ∷ [])
    ∷ (0x1f8d, 0x1f0d ∷ 0x399 ∷ [])
    ∷ (0x1f8e, 0x1f0e ∷ 0x399 ∷ [])
    ∷ (0x1f8f, 0x1f0f ∷ 0x399 ∷ [])
    ∷ (0x1f90, 0x1f28 ∷ 0x399 ∷ [])
    ∷ (0x1f91, 0x1f29 ∷ 0x399 ∷ [])
    ∷ (0x1f92, 0x1f2a ∷ 0x399 ∷ [])
    ∷ (0x1f93, 0x1f2b ∷ 0x399 ∷ [])
    ∷ (0x1f94, 0x1f2c ∷ 0x399 ∷ [])
    ∷ (0x1f95, 0x1f2d ∷ 0x399 ∷ [])
    ∷ (0x1f96, 0x1f2e ∷ 0x399 ∷ [])
    ∷ (0x1f97, 0x1f2f ∷ 0x399 ∷ [])
    ∷ (0x1f98, 0x1f28 ∷ 0x399 ∷ [])
    ∷ (0x1f99, 0x1f29 ∷ 0x399 ∷ [])
    ∷ (0x1f9a, 0x1f2a ∷ 0x399 ∷ [])
    ∷ (0x1f9b, 0x1f2b ∷ 0x399 ∷ [])
    ∷ (0x1f9c, 0x1f2c ∷ 0x399 ∷ [])
    ∷ (0x1f9d, 0x1f2d ∷ 0x399 ∷ [])
    ∷ (0x1f9e, 0x1f2e ∷ 0x399 ∷ [])
    ∷ (0x1f9f, 0x1f2f ∷ 0x399 ∷ [])
    ∷ (0x1fa0, 0x1f68 ∷ 0x399 ∷ [])
    ∷ (0x1fa1, 0x1f69 ∷ 0x399 ∷ [])
    ∷ (0x1fa2, 0x1f6a ∷ 0x399 ∷ [])
    ∷ (0x1fa3, 0x1f6b ∷ 0x399 ∷ [])
    ∷ (0x1fa4, 0x1f6c ∷ 0x399 ∷ [])
    ∷ (0x1fa5, 0x1f6d ∷ 0x399 ∷ [])
    ∷ (0x1fa6, 0x1f6e ∷ 0x399 ∷ [])
    ∷ (0x1fa7, 0x1f6f ∷ 0x399 ∷ [])
    ∷ (0x1fa8, 0x1f68 ∷ 0x399 ∷ [])
    ∷ (0x1fa9, 0x1f69 ∷ 0x399 ∷ [])
    ∷ (0x1faa, 0x1f6a ∷ 0x399 ∷ [])
    ∷ (0x1fab, 0x1f6b ∷ 0x399 ∷ [])
    ∷ (0x1fac, 0x1f6c ∷ 0x399 ∷ [])
    ∷ (0x1fad, 0x1f6d ∷ 0x399 ∷ [])
    ∷ (0x1fae, 0x1f6e ∷ 0x399 ∷ [])
    ∷ (0x1faf, 0x1f6f ∷ 0x399 ∷ [])
    ∷ (0x1fb2, 0x1fba ∷ 0x399 ∷ [])
    ∷ (0x1fb3, 0x391 ∷ 0x399 ∷ [])
    ∷ (0x1fb4, 0x386 ∷ 0x399 ∷ [])
    ∷ (0x1fb6, 0x391 ∷ 0x342 ∷ [])
    ∷ (0x1fb7, 0x391 ∷ 0x342 ∷ 0x399 ∷ [])
    ∷ (0x1fbc, 0x391 ∷ 0x399 ∷ [])
    ∷ (0x1fc2, 0x1fca ∷ 0x399 ∷ [])
    ∷ (0x1fc3, 0x397 ∷ 0x399 ∷ [])
    ∷ (0x1fc4, 0x389 ∷ 0x399 ∷ [])
    ∷ (0x1fc6, 0x397 ∷ 0x342 ∷ [])
    ∷ (0x1fc7, 0x397 ∷ 0x342 ∷ 0x399 ∷ [])
    ∷ (0x1fcc, 0x397 ∷ 0x399 ∷ [])
    ∷ (0x1fd2, 0x399 ∷ 0x308 ∷ 0x300 ∷ [])
    ∷ (0x1fd3, 0x399 ∷ 0x308 ∷ 0x301 ∷ [])
    ∷ (0x1fd6, 0x399 ∷ 0x342 ∷ [])
    ∷ (0x1fd7, 0x399 ∷ 0x308 ∷ 0x342 ∷ [])
    ∷ (0x1fe2, 0x3a5 ∷ 0x308 ∷ 0x300 ∷ [])
    ∷ (0x1fe3, 0x3a5 ∷ 0x308 ∷ 0x301 ∷ [])
    ∷ (0x1fe4, 0x3a1 ∷ 0x313 ∷ [])
    ∷ (0x1fe6, 0x3a5 ∷ 0x342 ∷ [])
    ∷ (0x1fe7, 0x3a5 ∷ 0x308 ∷ 0x342 ∷ [])
    ∷ (0x1ff2, 0x1ffa ∷ 0x399 ∷ [])
    ∷ (0x1ff3, 0x3a9 ∷ 0x399 ∷ [])
    ∷ (0x1ff4, 0x38f ∷ 0x399 ∷ [])
    ∷ (0x1ff6, 0x3a9 ∷ 0x342 ∷ [])
    ∷ (0x1ff7, 0x3a9 ∷ 0x342 ∷ 0x399 ∷ [])
    ∷ (0x1ffc, 0x3a9 ∷ 0x399 ∷ [])
    ∷ (0xfb00, 70 ∷ 70 ∷ [])
    ∷ (0xfb01, 70 ∷ 73 ∷ [])
    ∷ (0xfb02, 70 ∷ 76 ∷ [])
    ∷ (0xfb03, 70 ∷ 70 ∷ 73 ∷ [])
    ∷ (0xfb04, 70 ∷ 70 ∷ 76 ∷ [])
    ∷ (0xfb05, 83 ∷ 84 ∷ [])
    ∷ (0xfb06, 83 ∷ 84 ∷ [])
    ∷ (0xfb13, 0x544 ∷ 0x546 ∷ [])
    ∷ (0xfb14, 0x544 ∷ 0x535 ∷ [])
    ∷ (0xfb15, 0x544 ∷ 0x53b ∷ [])
    ∷ (0xfb16, 0x54e ∷ 0x546 ∷ [])
    ∷ (0xfb17, 0x544 ∷ 0x53d ∷ [])
    ∷ []
