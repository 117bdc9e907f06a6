-- ===== src/Discovery/Found.antt =====
-- Which interfaces `find_interfaces` of wpa_ctrl/discovery.py answers.
use wpa_ctrl_py.Base.{
  ◌≡◌, refl, sym, ap, ◌∙◌, inl, inr, Bool, true, false, not, ◌&&◌, ◌||◌, List, [], ◌∷◌, arith,
  is_empty, if◌then◌else◌, Bool-cases,
}
use wpa_ctrl_py.Text.{Text, text_eq}
use wpa_ctrl_py.TextSet.{member}
use wpa_ctrl_py.Dict.Laws.{text_eq_iff}
use wpa_ctrl_py.Transport.Socket.{path_join}
use wpa_ctrl_py.Discovery.Sorting.{IsSorted, sort-IsSorted, member-sort}
use wpa_ctrl_py.Discovery.{
  Files, keep, entries, yes_if, control_sockets, is_wireless, interface_exists, have_sysfs, worth,
  find_among, candidates,
}

and_false : (b : Bool) → b && false ≡ false
and_false true = refl
and_false false = refl

member-keep :
    (test : Text → Bool) (z : Text) (xs : List Text)
    → member z (keep test xs) ≡ (member z xs && test z)
unfolding keep member
member-keep test z [] = refl
member-keep test z (x ∷ xs) =
    let rest = member-keep test z xs in
    elim (Bool-cases (text_eq x z)) [
      | inl same ↦
          let e = ap test ((text_eq_iff x z).0 same) in
          elim (Bool-cases (test x)) [
            | inl yes_x ↦ rw (yes_x, same) (sym (sym e ∙ yes_x))
            | inr no_x ↦
                let no_z = sym e ∙ no_x in
                rw (no_x, same) (rest ∙ rw no_z (and_false (member z xs)))
          ]
      | inr other ↦ elim (Bool-cases (test x)) [
        | inl yes_x ↦ rw (yes_x, other) rest
        | inr no_x ↦ rw (no_x, other) rest
      ]
    ]

member-control_sockets :
    (files : Files) (ctrl_dir z : Text)
    → member z (control_sockets files ctrl_dir) ≡ (
        member z (entries (files.list ctrl_dir)) && yes_if (files.is_socket (path_join ctrl_dir z)))
unfolding control_sockets
member-control_sockets files ctrl_dir z =
    member-sort z _ ∙ member-keep _ z (entries (files.list ctrl_dir))

abbrev is_control_socket : Files → Text → Text → Bool
is_control_socket files ctrl_dir z =
    member z (entries (files.list ctrl_dir)) && yes_if (files.is_socket (path_join ctrl_dir z))

member-candidates :
    (files : Files) (ctrl_dir : Text) (from_global : List Text) (z : Text)
    → member z (candidates files ctrl_dir from_global)
      ≡ (if is_empty from_global then is_control_socket files ctrl_dir z else member z from_global)
member-candidates files ctrl_dir [] z = member-control_sockets files ctrl_dir z
member-candidates files ctrl_dir (name ∷ names) z = refl

-- The filter that is there only with sysfs.
member-filter :
    (test : Text → Bool) (sysfs : Bool) (names : List Text) (z : Text)
    → member z (if sysfs then keep test names else names)
      ≡ (member z names && (not sysfs || test z))
member-filter test true names z = member-keep test z names
member-filter test false names z = ground arith

-- The interfaces come sorted. A name is among them exactly when the daemon named it, or, where the
-- daemon named none, the control directory holds a socket of that name; and, where there is sysfs,
-- the kernel has the interface and, if that was asked for, says that it is wireless.
pub member-find_among :
    (files : Files) (ctrl_dir : Text) (wireless_only : Bool) (sys_class_net : Text)
    (from_global : List Text) (z : Text)
    → (let found = find_among files ctrl_dir wireless_only sys_class_net from_global in
        let is_control_socket =
          member z (entries (files.list ctrl_dir))
          && yes_if (files.is_socket (path_join ctrl_dir z)) in
        let known =
          interface_exists files sys_class_net z
          && (not wireless_only || is_wireless files sys_class_net z) in
        IsSorted found
        × member z found ≡ (
            (if is_empty from_global then is_control_socket else member z from_global)
            && (not (have_sysfs files sys_class_net) || known)))
unfolding find_among
member-find_among files ctrl_dir wireless_only sys_class_net from_global z =
    let names = candidates files ctrl_dir from_global in
    let test = worth files sys_class_net wireless_only in
    let known = not (have_sysfs files sys_class_net) || test z in
    (
      sort-IsSorted _,
      member-sort z _
          ∙ member-filter test (have_sysfs files sys_class_net) names z
          ∙ ap (λ (b : Bool). b && known) (member-candidates files ctrl_dir from_global z),
    )
