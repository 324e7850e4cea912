-- ===== src/GlobalMenu/Tests.antt =====
-- A menu with one submenu, which has a separator and a command with an accelerator.
use atom_shell.Common.{◌≡◌, refl, true, false, none, some, [], ◌∷◌, ◌⊎◌, ◌==◌, if◌then◌else◌}
use atom_shell.GlobalMenu.Items.{
  ItemType, command, separator, submenu, ModelItem, Toolkit, DbusItems, no_items,
  build_menu_from_model, on_submenu_show, on_item_activated, Place, here, into, show_each,
  activate_at, show_at,
}
use atom_shell.GlobalMenu.Reaching.{target, menus_before}
use atom_shell.GlobalMenu.Activating.{show_each-target}

abbrev model_item : ItemType → ModelItem
model_item kind = record {
  is_visible = true;
  item_type = kind;
  label = "Open";
  is_enabled = true;
  accelerator =
      some
        (record { key_code = 79; is_ctrl_down = true; is_alt_down = false; is_shift_down = true });
  is_checked = false;
}

abbrev toolkit : Toolkit
toolkit = record {
  items = λ model.
      if model == 0
      then model_item submenu ∷ []
      else model_item separator ∷ model_item command ∷ [];
  submenu_model_at = λ model index. 1;
  convert_label = λ label. label;
  key_name = λ code. if code == 79 then some "o" else none;
}

abbrev place : Place
place = into 0 (here 1)

activate_at-unshown : activate_at place (build_menu_from_model toolkit 0 no_items) ≡ none
unfolding build_menu_from_model
activate_at-unshown = refl

activate_at-shown :
    activate_at place (show_at toolkit (here 0) (build_menu_from_model toolkit 0 no_items))
    ≡ some (1, 1)
unfolding build_menu_from_model on_submenu_show on_item_activated
activate_at-shown = refl

show_each-target_example :
    let menu : DbusItems =
      show_each toolkit (here 0 ∷ here 0 ∷ []) (build_menu_from_model toolkit 0 no_items) in
    ((activate_at place menu ≡ none) ⊎ (activate_at place menu ≡ target toolkit 0 place))
    × (activate_at place (show_each toolkit (menus_before place) menu) ≡ target toolkit 0 place)
show_each-target_example = show_each-target toolkit 0 (here 0 ∷ here 0 ∷ []) place
