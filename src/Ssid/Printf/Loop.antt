-- ===== src/Ssid/Printf/Loop.antt =====
-- The loop of `printf_decode` as an equation: its fuel suffices, and its accumulator is a prefix.
use wpa_ctrl_py.Base.{
  ℕ, zero, suc, ◌+◌, ◌-◌, ◌*◌, ◌≤◌, ◌≡◌, refl, ◌∙◌, inl, inr, [], ◌∷◌, ◌++◌, append_assoc,
  append-nil, arith, length,
}
use wpa_ctrl_py.Result.{Result, ok, err, ◌>>=◌, Result-cases}
use wpa_ctrl_py.Text.{Text, Bytes}
use wpa_ctrl_py.Ssid.Decode.{
  Round, hex_digits, octal_digits, escape_round, decode_round, decode_loop, printf_decode,
}

-- A round that succeeds leaves no more text than it was given.
abbrev Shrinks : Text → Result Round → Type 0
Shrinks text (ok r) = length r.unread ≤ length text
Shrinks text (err e) = Unit

hex_digits-le : (n : ℕ) (text : Text) → length (hex_digits n text).unread ≤ length text
unfolding hex_digits
hex_digits-le zero text = omega arith
hex_digits-le (suc n) [] = omega arith
hex_digits-le (suc n) (c ∷ text) = ground (arith, hex_digits-le n text)

octal_digits-le :
    (n value : ℕ) (text : Text) → length (octal_digits n value text).unread ≤ length text
unfolding octal_digits
octal_digits-le zero value text = omega arith
octal_digits-le (suc n) value [] = omega arith
octal_digits-le (suc n) value (c ∷ text) =
    ground (arith, octal_digits-le n (value * 8 + (c - b'0')) text)

escape_round-Shrinks : (text : Text) → Shrinks text (escape_round text)
unfolding escape_round
escape_round-Shrinks [] = omega arith
escape_round-Shrinks (c ∷ text) =
    ground (arith, hex_digits-le 2 text, octal_digits-le 3 0 (c ∷ text))

decode_round-Shrinks : (c : ℕ) (text : Text) → Shrinks text (decode_round c text)
unfolding decode_round
decode_round-Shrinks c text = ground (arith, escape_round-Shrinks text)

-- More fuel than characters changes nothing.
decode_loop-fuel :
    (f g : ℕ) (acc : Bytes) (text : Text)
    → length text ≤ f
    → length text ≤ g
    → decode_loop f acc text ≡ decode_loop g acc text
unfolding decode_loop
decode_loop-fuel f zero acc (c ∷ text) hf hg = absurd (omega arith)
decode_loop-fuel zero g acc (c ∷ text) hf hg = absurd (omega arith)
decode_loop-fuel (suc f) (suc g) acc (c ∷ text) hf hg = elim (Result-cases (decode_round c text)) [
  | inl (r, e) ↦
      let small = rw e at (decode_round-Shrinks c text) in
      rw e (decode_loop-fuel f g (acc ++ r.octets) r.unread (omega arith) (omega arith))
  | inr (why, e) ↦ rw e
]
decode_loop-fuel zero zero acc [] hf hg = refl
decode_loop-fuel zero (suc g) acc [] hf hg = refl
decode_loop-fuel (suc f) zero acc [] hf hg = refl
decode_loop-fuel (suc f) (suc g) acc [] hf hg = refl

-- What the loop has appended so far stands in front of what it still appends.
decode_loop-append :
    (f : ℕ) (acc more : Bytes) (text : Text)
    → decode_loop f (acc ++ more) text ≡ (decode_loop f more text >>= λ bytes. ok (acc ++ bytes))
unfolding decode_loop
decode_loop-append zero acc more [] = refl
decode_loop-append zero acc more (c ∷ text) = refl
decode_loop-append (suc f) acc more [] = refl
decode_loop-append (suc f) acc more (c ∷ text) = elim (Result-cases (decode_round c text)) [
  | inl (r, e) ↦ rw (e, append_assoc) (decode_loop-append f acc (more ++ r.octets) r.unread)
  | inr (why, e) ↦ rw e
]

decode_loop-nil :
    (f : ℕ) (acc : Bytes) (text : Text)
    → decode_loop f acc text ≡ (decode_loop f [] text >>= λ bytes. ok (acc ++ bytes))
decode_loop-nil f acc text = rw (append-nil acc) at (decode_loop-append f acc [] text)

-- The loop as a recursion with neither fuel nor accumulator.
pub printf_decode-cons :
    (c : ℕ) (text : Text)
    → printf_decode (c ∷ text)
      ≡ (decode_round c text >>= λ r. printf_decode r.unread >>= λ bytes. ok (r.octets ++ bytes))
unfolding printf_decode
printf_decode-cons c text = elim (Result-cases (decode_round c text)) [
  | inl (r, e) ↦
      let small = rw e at (decode_round-Shrinks c text) in
      rw e (
        decode_loop-fuel (length text) (length r.unread) r.octets r.unread small (omega arith)
        ∙ decode_loop-nil (length r.unread) r.octets r.unread)
  | inr (why, e) ↦ rw e
]

-- The case of a round that is known.
pub printf_decode-round :
    (c : ℕ) (text : Text) (r : Round) {bytes : Bytes}
    → decode_round c text ≡ ok r
    → printf_decode r.unread ≡ ok bytes
    → printf_decode (c ∷ text) ≡ ok (r.octets ++ bytes)
printf_decode-round c text r e h = rw (printf_decode-cons, e, h)
