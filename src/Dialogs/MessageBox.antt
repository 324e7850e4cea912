-- ===== src/Dialogs/MessageBox.antt =====
-- MessageDialog and the two ShowMessageBox of atom/browser/ui/message_box_views.cc, with the DialogScope of
-- atom/browser/native_window.h. Painting, icons and the frame are the toolkit's.
use atom_shell.Common.{
  ℕ, zero, suc, ◌+◌, ◌-◌, ◌*◌, Bool, true, false, Option, none, some, List, [], ◌∷◌, length, String,
  leb, if◌then◌else◌,
}
use atom_shell.Common.Int.{ℤ, pos, ◌-ℤ◌}

-- What the toolkit measures, the spaces between controls, and LowerCaseEqualsASCII of a text and "cancel".
pub record Toolkit : Type 0 where
  pub button_width : String → ℕ
  pub button_height : ℕ
  pub related_button_h_spacing : ℕ
  pub related_control_vertical_spacing : ℕ
  pub contents_size : ℕ × ℕ
  pub is_cancel : String → Bool

pub record Button : Type 0 where
  pub tag : ℕ
  pub text : String
  pub is_default : Bool

-- What Close does at the end: run the callback and delete the dialog soon, quit the run loop of Show, or nothing.
pub data Ending : Type 0 where
  run_callback : Ending
  quit_run_loop : Ending
  no_ending : Ending

-- `result` is `none` for -1. `scope` is whether dialog_scope_ is there, and `has_dialog_attached` that of the parent,
-- if there is one. `answers` are what the callback was run with, newest first; `deletions` counts DeleteSoon.
pub record MessageDialog : Type 0 where
  pub buttons : List Button
  pub result : Option ℕ
  pub ending : Ending
  pub scope : Bool
  pub has_dialog_attached : Option Bool
  pub answers : List ℕ
  pub deletions : ℕ
  pub has_quit : Bool

abbrev pub is_zero : ℕ → Bool
is_zero zero = true
is_zero (suc n) = false

abbrev pub buttons_from : ℕ → List String → List Button
buttons_from i [] = []
buttons_from i (text ∷ rest) =
    record { tag = i; text = text; is_default = is_zero i } ∷ buttons_from (suc i) rest

-- DialogScope and its destructor.
abbrev pub attach : Option Bool → Option Bool
attach none = none
attach (some b) = some true

abbrev pub detach : Option Bool → Option Bool
detach none = none
detach (some b) = some false

unfoldable pub new_message_dialog : List String → Option Bool → MessageDialog
new_message_dialog texts parent = record {
  buttons = buttons_from 0 texts;
  result = none;
  ending = no_ending;
  scope = true;
  has_dialog_attached = attach parent;
  answers = [];
  deletions = 0;
  has_quit = false;
}

-- The loop of GetResult.
abbrev pub cancel_from : (String → Bool) → ℕ → List Button → ℕ
cancel_from is_cancel i [] = 0
cancel_from is_cancel i (button ∷ rest) =
    if is_cancel button.text then i else cancel_from is_cancel (suc i) rest

abbrev pub result_or_cancel : (String → Bool) → Option ℕ → List Button → ℕ
result_or_cancel is_cancel none buttons = cancel_from is_cancel 0 buttons
result_or_cancel is_cancel (some tag) buttons = tag

unfoldable pub get_result : Toolkit → MessageDialog → ℕ
get_result toolkit dialog = result_or_cancel toolkit.is_cancel dialog.result dialog.buttons

abbrev pub end_by : Toolkit → Ending → MessageDialog → MessageDialog
end_by toolkit run_callback dialog = record dialog {
  answers = get_result toolkit dialog ∷ dialog.answers;
  deletions = suc dialog.deletions;
}
end_by toolkit quit_run_loop dialog = record dialog { has_quit = true }
end_by toolkit no_ending dialog = dialog

unfoldable pub close : Toolkit → MessageDialog → MessageDialog
close toolkit dialog = end_by toolkit dialog.ending (record dialog {
  scope = false;
  has_dialog_attached =
      if dialog.scope then detach dialog.has_dialog_attached else dialog.has_dialog_attached;
})

-- Widget::Close asks CanClose of the client view, which closes the dialog and refuses, so that the widget can be closed
-- again. What the user does: Escape, the window's own button, or a button.
pub data Input : Type 0 where
  escape : Input
  window_closed : Input
  pressed : Button → Input

unfoldable pub button_pressed : Toolkit → Button → MessageDialog → MessageDialog
button_pressed toolkit sender dialog = close toolkit (record dialog { result = some sender.tag })

unfoldable pub accelerator_pressed : Toolkit → MessageDialog → MessageDialog
accelerator_pressed toolkit dialog = close toolkit dialog

unfoldable pub handle_input : Toolkit → Input → MessageDialog → MessageDialog
handle_input toolkit escape dialog = accelerator_pressed toolkit dialog
handle_input toolkit window_closed dialog = close toolkit dialog
handle_input toolkit (pressed sender) dialog = button_pressed toolkit sender dialog

unfoldable pub handle_inputs : Toolkit → List Input → MessageDialog → MessageDialog
handle_inputs toolkit [] dialog = dialog
handle_inputs toolkit (input ∷ rest) dialog =
    handle_inputs toolkit rest (handle_input toolkit input dialog)

-- ShowMessageBox without a callback: the run loop goes on until it is quit.
unfoldable pub run_loop : Toolkit → List Input → MessageDialog → MessageDialog
run_loop toolkit [] dialog = dialog
run_loop toolkit (input ∷ rest) dialog =
    let next = handle_input toolkit input dialog in
    elim next.has_quit [ true ↦ next | false ↦ run_loop toolkit rest next ]

unfoldable pub show_message_box : Toolkit → List String → Option Bool → List Input → ℕ
show_message_box toolkit texts parent inputs =
    get_result toolkit (
      run_loop toolkit inputs (record (new_message_dialog texts parent) { ending = quit_run_loop }))

-- ShowMessageBox with a callback, up to the deletion of the dialog.
unfoldable pub show_message_box_with_callback :
    Toolkit → List String → Option Bool → List Input → MessageDialog
show_message_box_with_callback toolkit texts parent inputs =
    handle_inputs toolkit inputs
      (record (new_message_dialog texts parent) { ending = run_callback })

abbrev pub sum_of_widths : (String → ℕ) → List Button → ℕ
sum_of_widths width [] = 0
sum_of_widths width (button ∷ rest) = width button.text + sum_of_widths width rest

abbrev pub larger : ℕ → ℕ → ℕ
larger a b = if leb a b then b else a

unfoldable pub get_preferred_size : Toolkit → List Button → ℕ × ℕ
get_preferred_size toolkit buttons = (
  larger
      (sum_of_widths toolkit.button_width buttons
        + toolkit.related_button_h_spacing * (length buttons - 1))
      toolkit.contents_size.0,
  toolkit.button_height + toolkit.related_control_vertical_spacing + toolkit.contents_size.1,
)

-- The loop of Layout, from the last button to the first: x after it, and the left edges and widths of the buttons.
unfoldable pub layout_buttons : Toolkit → ℕ → List Button → ℤ × List (ℤ × ℕ)
layout_buttons toolkit width [] = (pos width, [])
layout_buttons toolkit width (button ∷ rest) =
    let laid = layout_buttons toolkit width rest in
    let w = toolkit.button_width button.text in
    let x = laid.0 -ℤ pos (w + toolkit.related_button_h_spacing) in (x, (x, w) ∷ laid.1)
