-- ===== src/Security/Views.antt =====
-- What `Security` of wpa_ctrl/security.py is to its callers: three frozensets, and the questions
-- that its properties ask of them.
use wpa_ctrl_py.Base.{◌≡◌, refl, sym, ap, ◌∙◌, Bool, not, ◌&&◌}
use mathlib.Core.Quot
use wpa_ctrl_py.Text.{codes}
use wpa_ctrl_py.TextSet.Frozen.{FrozenSet, holds, holds_any, holds_none}
use wpa_ctrl_py.Security.{
  Security, is_enterprise, enterprise, names_suite, open_network, psk, sae, owe, transition_mode,
  sae_only, pmf_required, pmf_capable, wep,
}

pub record Offered : Type 0 where
  pub key_mgmt : FrozenSet
  pub protocols : FrozenSet
  pub flags : FrozenSet

abbrev pub offered : Security → Offered
offered s = record {
  key_mgmt = Quot.mk s.key_mgmt;
  protocols = Quot.mk s.protocols;
  flags = Quot.mk s.flags;
}

abbrev psk_in : Offered → Bool
psk_in o = holds_any (names_suite (codes "PSK")) o.key_mgmt

abbrev sae_in : Offered → Bool
sae_in o = holds_any (names_suite (codes "SAE")) o.key_mgmt

-- What the properties answer.
pub record Answers : Type 0 where
  pub is_open : Bool
  pub has_psk : Bool
  pub has_sae : Bool
  pub has_owe : Bool
  pub has_enterprise : Bool
  pub is_transition : Bool
  pub is_sae_only : Bool
  pub needs_pmf : Bool
  pub can_pmf : Bool

abbrev pub answers : Security → Answers
answers s = record {
  is_open = open_network s;
  has_psk = psk s;
  has_sae = sae s;
  has_owe = owe s;
  has_enterprise = enterprise s;
  is_transition = transition_mode s;
  is_sae_only = sae_only s;
  needs_pmf = pmf_required s;
  can_pmf = pmf_capable s;
}

abbrev answers_of : Offered → Answers
answers_of o = record {
  is_open = holds_none o.key_mgmt && holds_none o.protocols && not (holds (codes "WEP") o.flags);
  has_psk = psk_in o;
  has_sae = sae_in o;
  has_owe = holds (codes "OWE") o.key_mgmt;
  has_enterprise = holds_any is_enterprise o.key_mgmt;
  is_transition = psk_in o && sae_in o;
  is_sae_only = sae_in o && not (psk_in o);
  needs_pmf = holds (codes "MFPR") o.flags;
  can_pmf = holds (codes "MFPC") o.flags;
}

answers-offered : (s : Security) → answers s ≡ answers_of (offered s)
unfolding open_network psk sae owe enterprise transition_mode sae_only pmf_required pmf_capable wep
answers-offered s = refl

-- The answers depend on the three sets alone.
pub answers-same : (s t : Security) → offered s ≡ offered t → answers s ≡ answers t
answers-same s t same = answers-offered s ∙ ap answers_of same ∙ sym (answers-offered t)
