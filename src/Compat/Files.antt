-- ===== src/Compat/Files.antt =====
-- What a session of wpa_ctrl/compat.py leaves behind once its clients are closed.
use wpa_ctrl_py.Base.{
  ℕ, All, Bool, ◌≡◌, refl, sym, ap, ◌∙◌, ◌⊎◌, inl, inr, true, List, [], ◌∷◌, Option, none, some,
  Option-cases, some-injective,
}
use mathlib.Core.Path.{subst}
use wpa_ctrl_py.Text.{Text}
use wpa_ctrl_py.TextSet.{member}
use wpa_ctrl_py.Result.{Result, ok}
use wpa_ctrl_py.Transport.World.{World}
use wpa_ctrl_py.Transport.Socket.{is_encodable, address_of, interface_path, default_ctrl_dir}
use wpa_ctrl_py.Transport.Exec.{after}
use wpa_ctrl_py.Transport.Socket.{close_link}
use wpa_ctrl_py.Transport.Socket.Tidy.{IsClean, Owns}
use wpa_ctrl_py.Transport.Socket.Closing.{unlink-gone, client_dir-full}
use wpa_ctrl_py.Client.State.{Client, close_client}
use wpa_ctrl_py.Client.Request.{request}
use wpa_ctrl_py.Client.Request.Files.{request-Tidy}
use wpa_ctrl_py.Compat.{
  Shared, Clients, find_client, get_client, close_each, close_all, canonical, execute_command,
  at_present, write_back,
}
use wpa_ctrl_py.Compat.Executing.{
  fresh_client, remembered, get_client-fresh, get_client-found, execute_command-run,
}
use wpa_ctrl_py.Compat.Tables.{
  OwnedBy, AllClean, find-put, find-Clean, put-Clean, put-Owned, put-OwnedBy,
}

-- A session: any number of commands, of clients handed out, and of times that all are closed; with
-- the interfaces that are named in it, the last first.
pub data Session (s : Shared) : List Text → Shared → Type 0 where
  started : Session s [] s
  got :
      (ifname : Text) {names : List Text} {t : Shared}
      → Session s names t
      → Session s (ifname ∷ names) (after (get_client ifname) t)
  executed :
      (args : List Text) (ifname : Text) {names : List Text} {t : Shared}
      → Session s names t
      → Session s (ifname ∷ names) (after (execute_command args ifname) t)
  closed : {names : List Text} {t : Shared} → Session s names t → Session s names (close_all t)

-- The path of the interface's socket can be encoded.
abbrev pub IsSpelled : Text → Type 0
IsSpelled ifname = is_encodable (address_of (interface_path ifname default_ctrl_dir)) ≡ true

abbrev pub Exists : Shared → Text → Type 0
Exists s path = member path s.files ≡ true

-- Every file was there when the session started, or is the socket of a client in the table.
pub record Held (s t : Shared) : Type 0 where
  pub clean : AllClean t.clients
  pub owned : (path : Text) → Exists t path → Exists s path ⊎ OwnedBy path t.clients
  pub worlds : t.world_of ≡ s.world_of

fresh-Clean :
    (ifname : Text) (s : Shared)
    → IsSpelled ifname
    → (s.world_of s.made).can_unlink ≡ true
    → IsClean (fresh_client ifname s).link
fresh-Clean ifname s spelled unlinks = record {
  closed = λ off. refl;
  named = client_dir-full (s.name_of s.made);
  real = λ h. cc;
  spelled = spelled;
  unlinks = unlinks;
}

-- Files can be unlinked, whichever client it is.
abbrev pub Unlinks : Shared → Type 0
Unlinks s = (n : ℕ) → (s.world_of n).can_unlink ≡ true

present-Clean : (t : Shared) (c : Client) → IsClean c.link → IsClean (at_present t c).link
present-Clean t c clean = record {
  closed = clean.closed;
  named = clean.named;
  real = clean.real;
  spelled = clean.spelled;
  unlinks = clean.unlinks;
}

-- Behind `get_client`, the client is in the table.
record Ready (ifname : Text) (s t : Shared) (c : Client) : Type 0 where
  held : Held s t
  found : find_client ifname t.clients ≡ some c

get_client-Ready :
    (ifname : Text) (s t : Shared)
    → IsSpelled ifname
    → Unlinks s
    → Held s t
    → (c : Client) × (t' : Shared) × (get_client ifname t ≡ (ok c, t')) × Ready ifname s t' c
get_client-Ready ifname s t spelled can held = elim (Option-cases (find_client ifname t.clients)) [
  | inl new ↦ (
    fresh_client ifname t,
    remembered ifname t,
    get_client-fresh ifname t new,
    record {
      held = record {
        clean =
            put-Clean ifname (fresh_client ifname t) t.clients
              (fresh-Clean ifname t spelled (
                ap (λ (world_of : ℕ → World). (world_of t.made).can_unlink) held.worlds
                ∙ can t.made))
              held.clean;
        owned = λ path h. elim (held.owned path h) [
          | inl old ↦ inl old
          | inr own ↦
              inr (put-OwnedBy path ifname (fresh_client ifname t) t.clients (λ old found. cc) own)
        ];
        worlds = held.worlds;
      };
      found = find-put ifname (fresh_client ifname t) t.clients;
    },
  )
  | inr (c, old) ↦ (c, t, get_client-found ifname t c old, record { held = held; found = old })
]

-- A request on a client of the table.
write_back-Held :
    (text ifname : Text) (s t : Shared) (c : Client)
    → Ready ifname s t c
    → Held s (write_back ifname (after (request text none) (at_present t c)) t)
write_back-Held text ifname s t c ready =
    let c' = after (request text none) (at_present t c) in
    let clean = present-Clean t c (find-Clean ifname t.clients c ready.found ready.held.clean) in
    let keeps =
      λ (old : Client) (found : find_client ifname t.clients ≡ some old) (path : Text)
          (own : Owns old.link path).
        subst (λ (d : Client). Owns d.link path) (some-injective (sym found ∙ ready.found)) own in
    let (clean', files, kept) = request-Tidy text none (at_present t c) clean in
    record {
      clean = put-Clean ifname c' t.clients clean' ready.held.clean;
      owned = λ path h. elim (files path h) [
        | inl before ↦ elim (ready.held.owned path before) [
          | inl old ↦ inl old
          | inr own ↦ inr (
              put-OwnedBy path ifname c' t.clients
                (λ old found own'. kept path (keeps old found path own')) own)
        ]
        | inr own ↦ inr (put-Owned path ifname c' t.clients own)
      ];
      worlds = ready.held.worlds;
    }

-- Closing takes every file of a client away, and adds none.
close_each-files :
    (clients : Clients) (t : Shared) (path : Text)
    → AllClean clients
    → Exists (close_each clients t) path
    → Exists t path × (OwnedBy path clients → ⊥)
unfolding close_each close_client close_link
close_each-files [] t path clean h = (h, λ own. own)
close_each-files ((name, c) ∷ clients) t path clean h =
    let t' = close_each clients t in
    let (left, gone) =
      unlink-gone c.link.transport.client_path (at_present t' c).link.world path clean.0.unlinks
        clean.0.real h in
    let (old, others) = close_each-files clients t path clean.1 left in
    (old, λ own. elim own [ inl mine ↦ gone mine | inr other ↦ others other ])

-- Closing all the clients takes away what they have.
closed_files : (s t : Shared) (path : Text) → Held s t → Exists (close_all t) path → Exists s path
unfolding close_all
closed_files s t path held h =
    let (left, gone) = close_each-files t.clients t path held.clean h in
    elim (held.owned path left) [ inl old ↦ old | inr own ↦ absurd (gone own) ]

close_each-worlds : (clients : Clients) (t : Shared) → (close_each clients t).world_of ≡ t.world_of
unfolding close_each
close_each-worlds [] t = refl
close_each-worlds ((name, c) ∷ clients) t = close_each-worlds clients t

Session-Held :
    (s t : Shared) (names : List Text)
    → s.clients ≡ []
    → Unlinks s
    → All IsSpelled names
    → Session s names t
    → Held s t
unfolding close_all
Session-Held s t names empty can spelled started = record {
  clean = rw empty tt;
  owned = λ path h. inl h;
  worlds = refl;
}
Session-Held s t all empty can spelled (got ifname {names} {t = u} run) =
    let held = Session-Held s u names empty can spelled.1 run in
    let (c, u', e, ready) = get_client-Ready ifname s u spelled.0 can held in
    subst (Held s) (sym (ap (λ (out : Result Client × Shared). out.1) e)) ready.held
Session-Held s t all empty can spelled (executed args ifname {names} {t = u} run) =
    let held = Session-Held s u names empty can spelled.1 run in
    let (c, u', e, ready) = get_client-Ready ifname s u spelled.0 can held in
    subst (Held s)
      (sym (
        ap (λ (out : Result (Bool × Option Text) × Shared). out.1)
          (execute_command-run args ifname u u' c e)))
      (write_back-Held (canonical args) ifname s u' c ready)
Session-Held s t names empty can spelled (closed {t = u} run) =
    let held = Session-Held s u names empty can spelled run in
    record {
      clean = tt;
      owned = λ path h. inl (closed_files s u path held h);
      worlds = close_each-worlds u.clients u ∙ held.worlds;
    }

-- Whatever commands a session runs, on whatever interfaces, whether their sockets open or a step
-- fails: when all clients are closed the table is empty, and no file is there that was not there
-- when the session began with an empty table; if files can be unlinked, and the paths of the
-- interfaces can be encoded.
pub close_all-Session :
    (s t : Shared) (names : List Text)
    → s.clients ≡ []
    → Unlinks s
    → All IsSpelled names
    → Session s names t
    → ((close_all t).clients ≡ []) × ((path : Text) → Exists (close_all t) path → Exists s path)
unfolding close_all
close_all-Session s t names empty can spelled run =
    (refl, λ path h. closed_files s t path (Session-Held s t names empty can spelled run) h)
