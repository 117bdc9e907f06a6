-- ===== src/Security/Suites/Names.antt =====
-- What `_scan_key_mgmt` (wpa_ctrl/security.py) finds at the front of each of its names, by what
-- stands behind the name.
use wpa_ctrl_py.Base.{ℕ, ◌≡◌, refl, false, [], ◌∷◌, ◌++◌, Option, some, ◌==◌, All}
use wpa_ctrl_py.Text.{Text}
use wpa_ctrl_py.Security.Suites.{scan_names, behind_name, Found, find_name}

abbrev pub found : Text → Text → Option Found
found name rest = some (record { name = name; rest = rest })

abbrev pub FindsAll : Text → Type 0
FindsAll rest = All (λ name. find_name scan_names (name ++ rest) ≡ found name rest) scan_names

pub plus_names : (rest : Text) → FindsAll (b'+' ∷ rest)
unfolding find_name behind_name
plus_names rest = (
  refl,
  (
    refl,
    (
      refl,
      (
        refl,
        (
          refl,
          (
            refl,
            (
              refl,
              (
                refl,
                (
                  refl,
                  (
                    refl,
                    (
                      refl,
                      (
                        refl,
                        (refl, (refl, (refl, (refl, (refl, (refl, (refl, (refl, (refl, tt))))))))),
                      ),
                    ),
                  ),
                ),
              ),
            ),
          ),
        ),
      ),
    ),
  ),
)

pub end_names : FindsAll []
unfolding find_name behind_name
end_names = (
  refl,
  (
    refl,
    (
      refl,
      (
        refl,
        (
          refl,
          (
            refl,
            (
              refl,
              (
                refl,
                (
                  refl,
                  (
                    refl,
                    (
                      refl,
                      (
                        refl,
                        (refl, (refl, (refl, (refl, (refl, (refl, (refl, (refl, (refl, tt))))))))),
                      ),
                    ),
                  ),
                ),
              ),
            ),
          ),
        ),
      ),
    ),
  ),
)

pub dash_names : FindsAll (b'-' ∷ [])
unfolding find_name behind_name
dash_names = (
  refl,
  (
    refl,
    (
      refl,
      (
        refl,
        (
          refl,
          (
            refl,
            (
              refl,
              (
                refl,
                (
                  refl,
                  (
                    refl,
                    (
                      refl,
                      (
                        refl,
                        (refl, (refl, (refl, (refl, (refl, (refl, (refl, (refl, (refl, tt))))))))),
                      ),
                    ),
                  ),
                ),
              ),
            ),
          ),
        ),
      ),
    ),
  ),
)

pub cipher_names :
    (c : ℕ) (rest : Text)
    → (b'S' == c) ≡ false
    → (b'E' == c) ≡ false
    → (b'1' == c) ≡ false
    → FindsAll (b'-' ∷ c ∷ rest)
unfolding find_name behind_name
cipher_names c rest s e o = (
  refl,
  (
    refl,
    (
      refl,
      (
        refl,
        (
          rw o,
          (
            refl,
            (
              refl,
              (
                refl,
                (
                  refl,
                  (
                    refl,
                    (
                      refl,
                      (
                        refl,
                        (refl, (rw e, (refl, (rw s, (rw s, (rw e, (refl, (refl, (refl, tt))))))))),
                      ),
                    ),
                  ),
                ),
              ),
            ),
          ),
        ),
      ),
    ),
  ),
)
