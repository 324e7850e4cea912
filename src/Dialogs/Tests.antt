-- ===== src/Dialogs/Tests.antt =====
-- A dialog with the buttons "OK" and "Cancel", 60 wide each, with spaces of 8.
use atom_shell.Common.{
  ◌<◌, ◌≡◌, refl, true, false, none, List, [], ◌∷◌, length, String, str_eq, arith,
}
use atom_shell.Common.Int.{pos, negsuc}
use atom_shell.Dialogs.MessageBox.{
  Toolkit, Button, escape, window_closed, new_message_dialog, show_message_box,
  show_message_box_with_callback, layout_buttons, handle_input, close, accelerator_pressed,
  run_loop, get_result,
}
use atom_shell.Dialogs.Answers.{choice, show_message_box-choice, show_message_box-repeats}

abbrev toolkit : Toolkit
toolkit = record {
  button_width = λ text. 60;
  button_height = 30;
  related_button_h_spacing = 8;
  related_control_vertical_spacing = 8;
  contents_size = (100, 50);
  is_cancel = λ text. str_eq text "Cancel";
}

abbrev texts : List String
texts = "OK" ∷ "Cancel" ∷ []

show_message_box-escape : show_message_box toolkit texts none (escape ∷ []) ≡ 1
unfolding show_message_box new_message_dialog run_loop handle_input accelerator_pressed close
    get_result
show_message_box-escape = refl

show_message_box-choice_example :
    (show_message_box toolkit texts none (escape ∷ []) ≡ choice toolkit.is_cancel texts escape)
    × ((show_message_box_with_callback toolkit texts none (escape ∷ [])).answers
        ≡ choice toolkit.is_cancel texts escape ∷ [])
    × ((show_message_box_with_callback toolkit texts none (escape ∷ [])).deletions ≡ 1)
    × (choice toolkit.is_cancel texts escape < length texts)
show_message_box-choice_example =
    show_message_box-choice toolkit texts none escape [] (omega arith) tt

show_message_box-repeats_example :
    (length
        (show_message_box_with_callback toolkit texts none (escape ∷ window_closed ∷ [])).answers
      ≡ 2)
    × ((show_message_box_with_callback toolkit texts none (escape ∷ window_closed ∷ [])).deletions
        ≡ 2)
show_message_box-repeats_example =
    show_message_box-repeats toolkit texts none (escape ∷ window_closed ∷ [])

abbrev ok : Button
ok = record { tag = 0; text = "OK"; is_default = true }

abbrev cancel : Button
cancel = record { tag = 1; text = "Cancel"; is_default = false }

layout_buttons-128 :
    layout_buttons toolkit 128 (ok ∷ cancel ∷ []) ≡ (negsuc 7, (negsuc 7, 60) ∷ (pos 60, 60) ∷ [])
unfolding layout_buttons
layout_buttons-128 = refl
