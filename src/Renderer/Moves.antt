-- ===== src/Renderer/Moves.antt =====
-- Guests that move to another process (atom/browser/web_view_manager.cc,
-- atom/browser/atom_browser_client.cc).
use atom_shell.Common.{
  ℕ, ◌≡◌, refl, inl, inr, ◌≢◌, ◌∙◌, ap, sym, Bool, true, false, none, some, List, String, ◌==◌,
  if◌then◌else◌, arith, Option-cases,
}
use atom_shell.Common.Dictionary.{
  nat_key, string_key, lookup, contains, insert, lookup-insert, lookup-erase, contains-lookup,
}
use atom_shell.Renderer.Guests.{
  GuestInfo, Manager, Managers, Process, get_info, get_info_for_process, get_manager_from_process,
  move_process, set_manager, update_guest_process_id,
}
use atom_shell.Renderer.Windows.{CommandLine}
use atom_shell.Renderer.Client.{
  BrowserWindow, Client, override_site_instance, find_window, guest_switches, append_switches,
}

-- UpdateGuestProcessID answers the new process as the old one was answered, forgets the old one, and
-- leaves all others; a process without a guest changes nothing. If both processes have the same
-- number, its guest is forgotten.
pub get_info-move_process :
    (old_id new_id id : ℕ) (m : Manager)
    → get_info id (move_process old_id new_id m) ≡ (
        if contains old_id m.infos
        then (if old_id == id
            then none
            else if new_id == id
            then get_info old_id m
            else get_info id m)
        else get_info id m)
unfolding get_info move_process
get_info-move_process old_id new_id id m = elim (Option-cases (lookup old_id m.infos)) [
  | inl e ↦ ground (arith, e, contains-lookup old_id m.infos)
  | inr (info, e) ↦ simp e (
      ground (
        arith,
        e,
        contains-lookup old_id m.infos,
        lookup-erase old_id id (insert new_id info m.infos),
        lookup-insert new_id id info m.infos,
      ))
]

info_at :
    (p : Process) (c : ℕ) (managers : Managers)
    → p.guest_manager ≡ some c
    → get_info_for_process (some p) managers ≡ get_info p.process_id (managers c)
unfolding get_info_for_process get_manager_from_process
info_at p c managers h = simp h refl

update_at :
    (old new : Process) (c : ℕ) (managers : Managers)
    → old.guest_manager ≡ some c
    → update_guest_process_id old new managers c
      ≡ move_process old.process_id new.process_id (managers c)
unfolding update_guest_process_id get_manager_from_process set_manager
update_at old new c managers h = simp h (ground arith)

update-info :
    (old new p : Process) (c : ℕ) (managers : Managers)
    → old.guest_manager ≡ some c
    → p.guest_manager ≡ some c
    → get_info_for_process (some p) (update_guest_process_id old new managers)
      ≡ get_info p.process_id (move_process old.process_id new.process_id (managers c))
update-info old new p c managers ho hp =
    info_at p c (update_guest_process_id old new managers) hp
    ∙ ap (get_info p.process_id) (update_at old new c managers ho)

get_info-contains :
    (id : ℕ) (info : GuestInfo) (m : Manager)
    → get_info id m ≡ some info
    → contains id m.infos ≡ true
unfolding get_info
get_info-contains id info m h = ground (arith, h, contains-lookup id m.infos)

update-moves :
    (old new : Process) (c : ℕ) (info : GuestInfo) (managers : Managers)
    → old.guest_manager ≡ some c
    → new.guest_manager ≡ some c
    → old.process_id ≢ new.process_id
    → get_info_for_process (some old) managers ≡ some info
    → (get_info_for_process (some new) (update_guest_process_id old new managers) ≡ some info)
      × (get_info_for_process (some old) (update_guest_process_id old new managers) ≡ none)
update-moves old new c info managers ho hn hd hi =
    let known = sym (info_at old c managers ho) ∙ hi in
    let listed = get_info-contains old.process_id info (managers c) known in
    (
      update-info old new new c managers ho hn
          ∙ get_info-move_process old.process_id new.process_id new.process_id (managers c)
          ∙ ground (arith, hd, known, listed),
      update-info old new old c managers ho ho
          ∙ get_info-move_process old.process_id new.process_id old.process_id (managers c)
          ∙ ground (arith, listed),
    )

module _ {D : Type 0} (is_win : Bool) (is_one : D → Bool) (double_to_string : D → String)
    (int_to_string : ℕ → String) where
  launched-moves :
      (old child : Process) (windows : List (BrowserWindow D)) (client : Client)
      (managers : Managers) (command_line : CommandLine)
      → client.suppress_restart ≡ false
      → find_window old.process_id windows ≡ none
      → find_window child.process_id windows ≡ none
      → append_switches is_win is_one double_to_string int_to_string "renderer" child windows
          (override_site_instance (some old) client).1
          managers
          command_line
        ≡ (
          guest_switches int_to_string
              (get_info_for_process (some child) (update_guest_process_id old child managers))
              command_line,
          (
            record client { dying_render_process = none },
            update_guest_process_id old child managers,
          ),
        )
  unfolding append_switches override_site_instance
  launched-moves old child windows client managers command_line hs hw hw' = simp (hs, hw, hw') refl

  -- A guest without a window that navigates to another process of its manager is launched there with
  -- the switches of the guest, and the new process is known by the guest's information, the old one
  -- by none.
  pub append_switches-guest :
      (old child : Process) (c : ℕ) (info : GuestInfo) (windows : List (BrowserWindow D))
      (client : Client) (managers : Managers) (command_line : CommandLine)
      → client.suppress_restart ≡ false
      → old.guest_manager ≡ some c
      → child.guest_manager ≡ some c
      → old.process_id ≢ child.process_id
      → get_info_for_process (some old) managers ≡ some info
      → find_window old.process_id windows ≡ none
      → find_window child.process_id windows ≡ none
      → let launched =
          append_switches is_win is_one double_to_string int_to_string "renderer" child windows
            (override_site_instance (some old) client).1
            managers
            command_line in
        (launched.0 ≡ guest_switches int_to_string (some info) command_line)
        × ((get_info_for_process (some child) launched.1.1 ≡ some info)
            × (get_info_for_process (some old) launched.1.1 ≡ none))
  append_switches-guest old child c info windows client managers command_line hs ho hc hn hi hw
        hw' =
      simp (launched-moves old child windows client managers command_line hs hw hw', moved.0)
        (refl, (refl, moved.1))
    where
      moved :
          (get_info_for_process (some child) (update_guest_process_id old child managers)
            ≡ some info)
          × (get_info_for_process (some old) (update_guest_process_id old child managers) ≡ none)
      moved = update-moves old child c info managers ho hc hn hi
