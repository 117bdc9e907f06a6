-- ===== src/Client/Commands/Carried.antt =====
-- What the commands of wpa_ctrl/client.py carry to the daemon, which cuts a command at its spaces.
use wpa_ctrl_py.Base.{
  ℕ, zero, suc, ◌≡◌, refl, sym, ap, ◌∙◌, ◌⊎◌, inl, inr, Bool, List, [], ◌∷◌, ◌++◌, none, length,
  All, Bool-cases, if◌then◌else◌, arith,
}
use wpa_ctrl_py.Result.{Result, Error, ok, err, command_failed, err-not-ok}
use wpa_ctrl_py.Text.{Text, Bytes, Partition, codes, partition, join, strip, text_eq}
use wpa_ctrl_py.Text.Laws.{Lacks, partition-append}
use wpa_ctrl_py.Text.Utf8.{encode}
use wpa_ctrl_py.Transport.Exec.{continue, pure, raise}
use wpa_ctrl_py.Client.State.{Client}
use wpa_ctrl_py.Client.Request.{request, command, reply_ok}
use wpa_ctrl_py.Client.Request.Once.{sent_by, SendsOnce, request-SendsOnce}
use wpa_ctrl_py.Client.Commands.Wording.{one_line}
use wpa_ctrl_py.Client.Commands.Networks.{set_network}
use wpa_ctrl_py.Ssid.Quote.{quote}

-- The first words of a text, and the rest of it.
abbrev pub cut : ℕ → Text → List Text
cut zero text = text ∷ []
cut (suc n) text = let p = partition b' ' text in p.before ∷ cut n p.after

one_line-cons :
    (item : Text) (items : List Text) (last : Text)
    → one_line (item ∷ items ++ last ∷ []) ≡ item ++ b' ' ∷ one_line (items ++ last ∷ [])
unfolding join
one_line-cons item [] last = refl
one_line-cons item (next ∷ items) last = refl

cut-one_line :
    (items : List Text) (last : Text)
    → All (Lacks b' ') items
    → cut (length items) (one_line (items ++ last ∷ [])) ≡ items ++ last ∷ []
cut-one_line [] last h = unfold join in refl
cut-one_line (item ∷ items) last h =
    let rest = one_line (items ++ last ∷ []) in
    ap (cut (suc (length items))) (one_line-cons item items last)
    ∙ ap (λ (p : Partition). p.before ∷ cut (length items) p.after)
        (partition-append b' ' item rest h.0)
    ∙ ap (◌∷◌ item) (cut-one_line items last h.1)

-- One datagram went out, whose text the daemon cuts into these words; or none did, and the method
-- raised.
abbrev pub Carries : {A : Type 0} → Text → List Text → Client → Result A × Client → Type 0
Carries first words c run =
    ((text : Text) × (bytes : Bytes) × (encode text ≡ ok bytes)
      × (sent_by run.1 ≡ sent_by c ++ bytes ∷ [])
      × (cut (length words) text ≡ first ∷ words))
    ⊎ ((e : Error) × (run.0 ≡ err e) × (sent_by run.1 ≡ sent_by c))

command-Carries :
    (text first : Text) (words : List Text) (c : Client)
    → cut (length words) text ≡ first ∷ words
    → Carries first words c (command text none c)
unfolding command
command-Carries text first words c reads =
    go (request text none c).0 (request text none c).1 (request-SendsOnce text none c)
  where
    judge : Text → Client → Result {0} (Unit {0}) × Client
    judge reply =
        if text_eq (strip reply) reply_ok then pure tt else raise (command_failed text reply)

    judge-sent : (reply : Text) (d : Client) → sent_by (judge reply d).1 ≡ sent_by d
    judge-sent reply d = elim (Bool-cases (text_eq (strip reply) reply_ok)) [
      | inl same ↦ rw same refl
      | inr other ↦ rw other refl
    ]

    go :
        (r : Result Text) (d : Client)
        → SendsOnce text c (r, d)
        → Carries first words c (continue r judge d)
    go (ok reply) d (inl (bytes, fits, sent)) =
        inl (text, bytes, fits, judge-sent reply d ∙ sent, reads)
    go (ok reply) d (inr (e, failed, sent)) = absurd (err-not-ok (sym failed))
    go (err x) d (inl (bytes, fits, sent)) = inl (text, bytes, fits, sent, reads)
    go (err x) d (inr (e, failed, sent)) = inr (x, refl, sent)

set_network-Lacks : Lacks b' ' (codes "SET_NETWORK")
set_network-Lacks = (
  omega arith,
  (
    omega arith,
    (
      omega arith,
      (
        omega arith,
        (
          omega arith,
          (
            omega arith,
            (omega arith, (omega arith, (omega arith, (omega arith, (omega arith, tt))))),
          ),
        ),
      ),
    ),
  ),
)

-- Setting a variable of a network puts out at most one datagram: the daemon cuts it into the verb,
-- the network, the variable and the value, which may hold spaces and is quoted if that was asked
-- for. Where none goes out, the method raises.
pub set_network-Carries :
    (network_id variable value : Text) (quoted : Bool) (c : Client)
    → Lacks b' ' network_id
    → Lacks b' ' variable
    → Carries
        (codes "SET_NETWORK")
        (network_id ∷ variable ∷ (if quoted then quote value else value) ∷ [])
        c
        (set_network network_id variable value quoted c)
set_network-Carries network_id variable value quoted c whole whole' =
    let stored = if quoted then quote value else value in
    let items = codes "SET_NETWORK" ∷ network_id ∷ variable ∷ [] in
    command-Carries (one_line (items ++ stored ∷ [])) (codes "SET_NETWORK")
      (network_id ∷ variable ∷ stored ∷ []) c
      (cut-one_line items stored (set_network-Lacks, (whole, (whole', tt))))
