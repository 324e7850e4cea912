-- ===== src/Views/Tests.antt =====
-- Runs of a window with a menu bar of two menus, Alt+F and Alt+E.
use atom_shell.Common.{
  ◌+◌, ◌-◌, ◌≡◌, refl, true, false, none, some, List, [], ◌∷◌, map, str_eq, if◌then◌else◌, arith,
  All,
}
use mathlib.Core.Path.{ap₂}
use atom_shell.Views.MenuBar.{
  Item, Labels, set_bar_menu, layout, get_accelerator_index, activate_accelerator,
  set_accelerator_visibility, on_menu_button_clicked,
}
use atom_shell.Views.Window.{
  Frame, WindowViews, new_window_views, set_menu_bar_visibility, set_content_size, get_content_size,
  set_menu, Call, set_menu_call,
}
use atom_shell.Views.Keys.{
  KeyEvent, raw_key_down, key_up, Modifiers, script_call, key, activation, handle, run,
  handle_menu_key, handle_keyboard_event, is_alt_key, is_alt_modifier, is_alt_and_key, open_by_key,
}
use atom_shell.Views.Children.{IsCoherent}
use atom_shell.Views.Coherent.{run-IsCoherent}
use atom_shell.Views.Sizes.{IsRigid, set_content_size-get_content_size}
use atom_shell.Views.Taps.{Shows, IsPlain, taps, flipped, run-taps}

-- A frame of 4 by 30.
abbrev frame : Frame
frame = record {
  window_size_for_client = λ (w, h). (w + 4, h + 30);
  client_size = λ (w, h). (w - 4, h - 30);
}

abbrev labels : Labels
labels = record {
  marked_character = λ label.
      if str_eq label "&File" then some 102 else if str_eq label "&Edit" then some 101 else none;
  to_upper_ascii = λ c. c - 32;
}

abbrev menu : List Item
menu =
    record { label = "&File"; is_submenu = true }
    ∷ record { label = "&Edit"; is_submenu = true }
    ∷ []

abbrev no_commands : KeyEvent → List Call
no_commands event = []

abbrev window : WindowViews
window = set_menu frame labels false menu (new_window_views true true false true (800, 600))

abbrev unmodified : Modifiers
unmodified = record {
  alt_key = false;
  is_left = false;
  is_right = false;
  num_lock_on = false;
  caps_lock_on = false;
  others = false;
}

abbrev alt_down : KeyEvent
alt_down = record {
  type = raw_key_down;
  windows_key_code = 164;
  modifiers = record unmodified { alt_key = true };
}

abbrev alt_up : KeyEvent
alt_up = record { type = key_up; windows_key_code = 164; modifiers = unmodified }

abbrev alt_e : KeyEvent
alt_e = record {
  type = raw_key_down;
  windows_key_code = 69;
  modifiers = record unmodified { alt_key = true };
}

layout-visible :
    layout 2 (800, 600)
    ≡ (record { y = 25; size = (800, 575) }, some record { y = 0; size = (800, 25) })
unfolding layout
layout-visible = refl

run-alt_e :
    map
      (λ bar. bar.opened)
      (elim (run frame labels no_commands (key alt_e ∷ []) window).menu_bar [
        | none ↦ []
        | some bar ↦ bar ∷ []
      ])
    ≡ (1 ∷ []) ∷ []
unfolding run handle handle_keyboard_event handle_menu_key open_by_key set_menu new_window_views
    set_menu_bar_visibility get_accelerator_index activate_accelerator on_menu_button_clicked
    set_bar_menu set_accelerator_visibility is_alt_key is_alt_modifier
run-alt_e = refl

run-IsCoherent_example : IsCoherent (
    run frame labels no_commands
      (script_call (set_menu_call false menu)
        ∷ key alt_down
        ∷ key alt_up
        ∷ activation false true
        ∷ [])
      (new_window_views true true false true (800, 600)))
run-IsCoherent_example =
    run-IsCoherent frame labels no_commands true true false true (800, 600)
      (script_call (set_menu_call false menu)
        ∷ key alt_down
        ∷ key alt_up
        ∷ activation false true
        ∷ [])

frame-IsRigid : IsRigid frame
frame-IsRigid d (w, h) = ap₂ (λ a b. (a, b)) width height
  where
    width : w + 4 - 4 ≡ w
    width = omega arith

    height : h + 30 + d - 30 ≡ h + d
    height = omega arith

set_content_size-get_content_size_example :
    get_content_size frame (set_content_size frame (640, 480) window) ≡ (640, 480)
set_content_size-get_content_size_example =
    set_content_size-get_content_size frame (640, 480) window frame-IsRigid

abbrev new_window : WindowViews
new_window = new_window_views true false true true (800, 600)

window-Shows : Shows false false window
unfolding set_menu new_window_views
window-Shows = record { there = refl; hides = refl; shown = refl; alt = refl }

alt_down_single : is_alt_and_key alt_down ≡ false
unfolding is_alt_key
alt_down_single = refl

run-taps_example :
    (run frame labels no_commands
      (map key (alt_down ∷ alt_up ∷ alt_down ∷ alt_up ∷ alt_up ∷ []))
      window).menu_bar_visible
    ≡ flipped (taps (alt_down ∷ alt_up ∷ alt_down ∷ alt_up ∷ alt_up ∷ [])) false
run-taps_example =
    run-taps frame labels no_commands (alt_down ∷ alt_up ∷ alt_down ∷ alt_up ∷ alt_up ∷ []) false
      window plain window-Shows
  where
    plain :
        All (IsPlain frame labels no_commands) (alt_down ∷ alt_up ∷ alt_down ∷ alt_up ∷ alt_up ∷ [])
    plain = (
      (alt_down_single, refl),
      ((refl, refl), ((alt_down_single, refl), ((refl, refl), ((refl, refl), record {})))),
    )
