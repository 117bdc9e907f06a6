-- ===== src/Client/Commands/Walks/Pattern.antt =====
-- The pattern of the three generators of wpa_ctrl/client.py that ask for one item after another.
use wpa_ctrl_py.Base.{
  ℕ, zero, suc, ◌≡◌, inl, inr, List, [], ◌∷◌, ◌++◌, Option, none, some, if◌then◌else◌, Bool-cases,
}
use wpa_ctrl_py.Result.{Result, ok, err}
use wpa_ctrl_py.Text.{Text, codes}
use wpa_ctrl_py.Dict
use wpa_ctrl_py.Dict.{Dict}
use wpa_ctrl_py.TextSet.{TextSet, member, add}
use wpa_ctrl_py.Transport.Exec.{continue, Exec, ◌>>=◌, pure}
use wpa_ctrl_py.Client.State.{Client}
use wpa_ctrl_py.Client.Commands.Wording.{map_option}
use wpa_ctrl_py.Client.Commands.Station.{bss}
use wpa_ctrl_py.Base.{◌∙◌, ◌≡◌, refl, ap}
use wpa_ctrl_py.Client.Commands.Walks.{Keyed, bss_loop, addressed, stations_loop, peers_loop}

-- The loop: it ends at an item without a key, or with one that was seen.
unfoldable pub walk :
    {A : Type 0}
    → (Text → Exec Client (Option (Keyed A)))
    → (Text → Text)
    → ℕ
    → TextSet
    → Text
    → Exec Client (List (Keyed A))
walk query next zero seen selector = pure []
walk query next (suc n) seen selector = do
  found ← query selector
  elim found [
    | none ↦ pure []
    | some item ↦
        if member item.0 seen
        then pure []
        else (walk query next n (add item.0 seen) (next item.0) >>= λ rest. pure (item ∷ rest))
  ]

abbrev pub keyed_bss : Dict → Option (Keyed Dict)
keyed_bss info = map_option (λ id. (id, info)) (Dict.get (codes "id") info)

abbrev pub bss_query : Option ℕ → Text → Exec Client (Option (Keyed Dict))
bss_query mask selector = bss selector mask >>= λ info. pure (keyed_bss info)

abbrev pub after_bss : Text → Text
after_bss id = codes "NEXT-" ++ id

abbrev pub after_station : Text → Text
after_station address = codes "STA-NEXT " ++ address

abbrev pub after_peer : Text → Text
after_peer address = codes "P2P_PEER NEXT-" ++ address

-- The same outcome and the same state in front of a step.
then-same :
    {A : Type 0} (m m' : Exec Client (List A)) (item : A) (c : Client)
    → m c ≡ m' c
    → (m >>= λ rest. pure {S = Client} (item ∷ rest)) c ≡ (m' >>= λ rest. pure (item ∷ rest)) c
then-same {A} m m' item c same =
    ap
      (λ (run : Result (List A) × Client).
        continue run.0 (λ rest. pure {S = Client} (item ∷ rest)) run.1)
      same

-- What a round of a walk does with what it has found; `again` is the rest of the loop.
abbrev round :
    {A : Type 0}
    → (Text → Text)
    → (TextSet → Text → Exec Client (List (Keyed A)))
    → TextSet
    → Option (Keyed A)
    → Exec Client (List (Keyed A))
round next again seen found = elim found [
  | none ↦ pure []
  | some item ↦
      if member item.0 seen
      then pure []
      else (again (add item.0 seen) (next item.0) >>= λ rest. pure (item ∷ rest))
]

-- A loop that starts and goes on like a walk is that walk.
module _ {A : Type 0} (query : Text → Exec Client (Option (Keyed A))) (next : Text → Text)
    (loop : ℕ → TextSet → Text → Exec Client (List (Keyed A)))
    (stops : (seen : TextSet) (selector : Text) (c : Client) → loop 0 seen selector c ≡ (ok [], c))
    (goes_on : (n : ℕ) (seen : TextSet) (selector : Text) (c : Client)
      → loop (suc n) seen selector c ≡ (query selector >>= round next (loop n) seen) c) where
  loop-walk :
      (n : ℕ) (seen : TextSet) (selector : Text) (c : Client)
      → loop n seen selector c ≡ walk query next n seen selector c
  unfolding walk
  loop-walk zero seen selector c = stops seen selector c
  loop-walk (suc n) seen selector c =
      goes_on n seen selector c
      ∙ go (query selector c).0 (query selector c).1
          (λ seen' selector' d. loop-walk n seen' selector' d)
    where
      go :
          (r : Result (Option (Keyed A))) (d : Client)
          → ((seen' : TextSet) (selector' : Text) (d : Client)
              → loop n seen' selector' d ≡ walk query next n seen' selector' d)
          → continue r (round next (loop n) seen) d
            ≡ continue r (round next (walk query next n) seen) d
      go (err e) d same = refl
      go (ok none) d same = refl
      go (ok (some item)) d same = elim (Bool-cases (member item.0 seen)) [
        | inl old ↦ rw old refl
        | inr new ↦ rw new (
            then-same (loop n (add item.0 seen) (next item.0))
              (walk query next n (add item.0 seen) (next item.0)) item d
              (same (add item.0 seen) (next item.0) d))
      ]

bss_loop-round :
    (mask : Option ℕ) (n : ℕ) (seen : TextSet) (selector : Text) (c : Client)
    → bss_loop mask (suc n) seen selector c
      ≡ (bss_query mask selector >>= round after_bss (bss_loop mask n) seen) c
unfolding bss_loop
bss_loop-round mask n seen selector c = go (bss selector mask c).0 (bss selector mask c).1
  where
    go :
        (r : Result Dict) (d : Client)
        → continue r
            (λ info. elim (Dict.get (codes "id") info) [
              | none ↦ pure {S = Client} []
              | some id ↦
                  if member id seen
                  then pure []
                  else (bss_loop mask n (add id seen) (codes "NEXT-" ++ id) >>= λ rest.
                      pure ((id, info) ∷ rest))
            ])
            d
          ≡ (let found = continue r (λ info. pure {S = Client} (keyed_bss info)) d in
              continue found.0 (round after_bss (bss_loop mask n) seen) found.1)
    go (err e) d = refl
    go (ok info) d = fused (Dict.get (codes "id") info)
      where
        fused :
            (found : Option Text)
            → (let run : Exec Client (List (Keyed Dict)) = elim found [
              | none ↦ pure []
              | some id ↦
                  if member id seen
                  then pure []
                  else (bss_loop mask n (add id seen) (codes "NEXT-" ++ id) >>= λ rest.
                      pure ((id, info) ∷ rest))
            ] in
                run d
                ≡ round after_bss (bss_loop mask n) seen (map_option (λ id. (id, info)) found) d)
        fused none = refl
        fused (some id) = refl

-- The three loops.
pub bss_loop-walk :
    (mask : Option ℕ) (n : ℕ) (seen : TextSet) (selector : Text) (c : Client)
    → bss_loop mask n seen selector c ≡ walk (bss_query mask) after_bss n seen selector c
bss_loop-walk mask n seen selector c =
    loop-walk (bss_query mask) after_bss (bss_loop mask)
      (λ seen selector c. unfold bss_loop in refl) (bss_loop-round mask) n seen selector c

pub stations_loop-walk :
    (n : ℕ) (seen : TextSet) (command : Text) (c : Client)
    → stations_loop n seen command c ≡ walk addressed after_station n seen command c
unfolding stations_loop
stations_loop-walk n seen command c =
    loop-walk addressed after_station stations_loop (λ seen command c. refl)
      (λ n seen command c. refl) n seen command c

pub peers_loop-walk :
    (n : ℕ) (seen : TextSet) (command : Text) (c : Client)
    → peers_loop n seen command c ≡ walk addressed after_peer n seen command c
unfolding peers_loop
peers_loop-walk n seen command c =
    loop-walk addressed after_peer peers_loop (λ seen command c. refl) (λ n seen command c. refl) n
      seen command c
