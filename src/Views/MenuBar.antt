-- ===== src/Views/MenuBar.antt =====
-- MenuBar, SubmenuButton and MenuLayout (atom/browser/ui/views/menu_bar.cc, submenu_button.cc, menu_layout.cc).
-- Colours, painting and the buttons' own geometry are Chromium's.
use atom_shell.Common.{
  ℕ, suc, ◌-◌, Bool, false, not, Option, none, some, List, [], ◌∷◌, map, get_elem?, String, ◌==◌,
  if◌then◌else◌,
}

pub record Item : Type 0 where
  pub label : String
  pub is_submenu : Bool

-- gfx::RemoveAcceleratorChar: the character that the label marks, if it marks one; and base::ToUpperASCII.
pub record Labels : Type 0 where
  pub marked_character : String → Option ℕ
  pub to_upper_ascii : ℕ → ℕ

pub record SubmenuButton : Type 0 where
  pub tag : ℕ
  pub accelerator : ℕ
  pub show_underline : Bool

-- `opened` are the submenus that were run.
pub record MenuBar : Type 0 where
  pub buttons : List SubmenuButton
  pub menu_model : Option (List Item)
  pub opened : List ℕ

abbrev pub new_menu_bar : MenuBar
new_menu_bar = record { buttons = []; menu_model = none; opened = [] }

abbrev pub accelerator_or_0 : (ℕ → ℕ) → Option ℕ → ℕ
accelerator_or_0 upper none = 0
accelerator_or_0 upper (some c) = upper c

abbrev pub new_submenu_button : Labels → ℕ → Item → SubmenuButton
new_submenu_button labels tag item = record {
  tag = tag;
  accelerator = accelerator_or_0 labels.to_upper_ascii (labels.marked_character item.label);
  show_underline = false;
}

abbrev pub buttons_from : Labels → ℕ → List Item → List SubmenuButton
buttons_from labels i [] = []
buttons_from labels i (item ∷ rest) =
    new_submenu_button labels i item ∷ buttons_from labels (suc i) rest

unfoldable pub set_bar_menu : Labels → List Item → MenuBar → MenuBar
set_bar_menu labels items bar = record {
  buttons = buttons_from labels 0 items;
  menu_model = some items;
  opened = bar.opened;
}

abbrev pub show_accelerator : Bool → SubmenuButton → SubmenuButton
show_accelerator visible button = record {
  tag = button.tag;
  accelerator = button.accelerator;
  show_underline = visible;
}

unfoldable pub set_accelerator_visibility : Bool → MenuBar → MenuBar
set_accelerator_visibility visible bar = record {
  buttons = map (show_accelerator visible) bar.buttons;
  menu_model = bar.menu_model;
  opened = bar.opened;
}

-- GetAcceleratorIndex; `none` for -1.
abbrev pub index_of : ℕ → ℕ → List SubmenuButton → Option ℕ
index_of key i [] = none
index_of key i (button ∷ rest) =
    if button.accelerator == key then some i else index_of key (suc i) rest

unfoldable pub get_accelerator_index : ℕ → MenuBar → Option ℕ
get_accelerator_index key bar = index_of key 0 bar.buttons

abbrev pub is_submenu_at : Option (List Item) → ℕ → Bool
is_submenu_at none i = false
is_submenu_at (some items) i = elim (get_elem? items i) [
  | none ↦ false
  | some item ↦ item.is_submenu
]

unfoldable pub on_menu_button_clicked : SubmenuButton → MenuBar → MenuBar
on_menu_button_clicked source bar =
    let hidden = set_accelerator_visibility false bar in
    record {
      buttons = hidden.buttons;
      menu_model = hidden.menu_model;
      opened =
          if is_submenu_at hidden.menu_model source.tag
          then source.tag ∷ hidden.opened
          else hidden.opened;
    }

abbrev pub click : Option SubmenuButton → MenuBar → MenuBar
click none bar = bar
click (some button) bar = on_menu_button_clicked button bar

abbrev pub activate_at : Option ℕ → MenuBar → MenuBar
activate_at none bar = bar
activate_at (some i) bar = click (get_elem? bar.buttons i) bar

-- views::MenuButton::Activate tells the listener of the click.
unfoldable pub activate_accelerator : ℕ → MenuBar → MenuBar
activate_accelerator key bar = activate_at (get_accelerator_index key bar) bar

abbrev pub Size : Type 0
Size = ℕ × ℕ

pub record Rect : Type 0 where
  pub y : ℕ
  pub size : Size

abbrev pub menu_bar_height : ℕ
menu_bar_height = 25

-- MenuLayout::Layout with the children of a host of this size: the bounds of the web view and of the menu
-- bar, all of which begin at x = 0. A Size has no negative height.
unfoldable pub layout : ℕ → Size → Rect × Option Rect
layout child_count (width, height) =
    if not (child_count == 2) then (record { y = 0; size = (width, height) }, none) else (
      record { y = menu_bar_height; size = (width, height - menu_bar_height) },
      some record { y = 0; size = (width, menu_bar_height) },
    )
