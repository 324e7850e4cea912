-- ===== src/GlobalMenu/Items.antt =====
-- GlobalMenuBarX11 (atom/browser/ui/views/global_menu_bar_x11.cc). A menu model is a number, and the items are those of
-- libdbusmenu, with what g_object_set_data and g_signal_connect add to them.
use atom_shell.Common.{
  ℕ, zero, suc, Bool, true, false, Option, none, some, List, [], ◌∷◌, ◌++◌, String, if◌then◌else◌,
}

pub data ItemType : Type 0 where
  command : ItemType
  check : ItemType
  radio : ItemType
  separator : ItemType
  submenu : ItemType

pub record Accelerator : Type 0 where
  pub key_code : ℕ
  pub is_ctrl_down : Bool
  pub is_alt_down : Bool
  pub is_shift_down : Bool

pub record ModelItem : Type 0 where
  pub is_visible : Bool
  pub item_type : ItemType
  pub label : String
  pub is_enabled : Bool
  pub accelerator : Option Accelerator
  pub is_checked : Bool

-- ui::MenuModel: the items of a model and GetSubmenuModelAt; ConvertAcceleratorsFromWindowsStyle; and XKeysymToString of
-- the key of a key code, which is `none` for NULL.
pub record Toolkit : Type 0 where
  pub items : ℕ → List ModelItem
  pub submenu_model_at : ℕ → ℕ → ℕ
  pub convert_label : String → String
  pub key_name : ℕ → Option String

pub data Handler : Type 0 where
  no_handler : Handler
  on_about_to_show : Handler
  on_activated : Handler

-- `menu_id` is 0 for NULL. A toggle is its kToggleRadio and its state.
pub record Properties : Type 0 where
  pub visible : Bool
  pub is_separator : Bool
  pub label : Option String
  pub enabled : Option Bool
  pub shortcut : Option (List String)
  pub toggle : Option (Bool × Bool)
  pub displays_submenu : Bool
  pub model : Option ℕ
  pub menu_id : ℕ
  pub handler : Handler

-- An item, its children and the items after it.
pub data DbusItems : Type 0 where
  no_items : DbusItems
  menuitem : Properties → DbusItems → DbusItems → DbusItems

-- menuitem_child_append, for each of the new items.
abbrev pub append : DbusItems → DbusItems → DbusItems
append no_items new = new
append (menuitem properties children rest) new = menuitem properties children (append rest new)

abbrev pub set_menu_item_id : ℕ → Properties → Properties
set_menu_item_id id properties = record properties { menu_id = suc id }

abbrev pub get_menu_item_id : Properties → Option ℕ
get_menu_item_id properties = decode properties.menu_id
  where
    decode : ℕ → Option ℕ
    decode zero = none
    decode (suc id) = some id

abbrev modifier : Bool → String → List String
modifier true name = name ∷ []
modifier false name = []

abbrev with_key : Accelerator → Option String → Option (List String)
with_key accelerator none = none
with_key accelerator (some name) = some (
    modifier accelerator.is_ctrl_down "Control"
    ++ modifier accelerator.is_alt_down "Alt"
    ++ modifier accelerator.is_shift_down "Shift"
    ++ name ∷ [])

abbrev pub register_accelerator : Toolkit → Option Accelerator → Properties → Properties
register_accelerator toolkit none properties = properties
register_accelerator toolkit (some accelerator) properties = record properties {
  shortcut = with_key accelerator (toolkit.key_name accelerator.key_code);
}

abbrev new_item : Bool → Properties
new_item visible = record {
  visible = visible;
  is_separator = false;
  label = none;
  enabled = none;
  shortcut = none;
  toggle = none;
  displays_submenu = false;
  model = none;
  menu_id = 0;
  handler = no_handler;
}

-- An item that is no separator.
abbrev pub labelled : Toolkit → ℕ → ℕ → ModelItem → Properties
labelled toolkit model i item = set_menu_item_id i (record (new_item item.is_visible) {
  label = some (toolkit.convert_label item.label);
  enabled = some item.is_enabled;
  model = some model;
})

abbrev activatable : Toolkit → ℕ → ℕ → ModelItem → Properties
activatable toolkit model i item =
    record (register_accelerator toolkit item.accelerator (labelled toolkit model i item)) {
      handler = on_activated;
    }

-- The body of the loop of BuildMenuFromModel.
abbrev pub build_item : Toolkit → ℕ → ℕ → ModelItem → ItemType → Properties
build_item toolkit model i item separator = record (new_item item.is_visible) {
  is_separator = true;
}
build_item toolkit model i item submenu = record (labelled toolkit model i item) {
  displays_submenu = true;
  handler = on_about_to_show;
}
build_item toolkit model i item check = record (activatable toolkit model i item) {
  toggle = some (false, item.is_checked);
}
build_item toolkit model i item radio = record (activatable toolkit model i item) {
  toggle = some (true, item.is_checked);
}
build_item toolkit model i item command = activatable toolkit model i item

abbrev pub build_from : Toolkit → ℕ → ℕ → List ModelItem → DbusItems
build_from toolkit model i [] = no_items
build_from toolkit model i (item ∷ rest) =
    menuitem (build_item toolkit model i item item.item_type) no_items
      (build_from toolkit model (suc i) rest)

unfoldable pub build_menu_from_model : Toolkit → ℕ → DbusItems → DbusItems
build_menu_from_model toolkit model children =
    append children (build_from toolkit model 0 (toolkit.items model))

-- `server` is whether server_ is there, `root` the children of its root.
pub record GlobalMenuBar : Type 0 where
  pub server : Bool
  pub root : Option DbusItems

unfoldable pub set_menu : Toolkit → ℕ → GlobalMenuBar → GlobalMenuBar
set_menu toolkit model bar =
    if bar.server
    then record bar { root = some (build_menu_from_model toolkit model no_items) }
    else bar

-- OnSubMenuShow and OnItemActivated, which take the model and the identifier of the item.
abbrev pub show : Toolkit → Option ℕ → Option ℕ → DbusItems → DbusItems
show toolkit (some model) (some id) children =
    build_menu_from_model toolkit (toolkit.submenu_model_at model id) no_items
show toolkit (some model) none children = children
show toolkit none id children = children

unfoldable pub on_submenu_show : Toolkit → Properties → DbusItems → DbusItems
on_submenu_show toolkit item children = show toolkit item.model (get_menu_item_id item) children

abbrev pub activate : Option ℕ → Option ℕ → Option (ℕ × ℕ)
activate (some model) (some id) = some (model, id)
activate (some model) none = none
activate none id = none

-- ActivatedAt of a model, with an index.
unfoldable pub on_item_activated : Properties → Option (ℕ × ℕ)
on_item_activated item = activate item.model (get_menu_item_id item)

-- What the desktop does: it names an item by its place, and only a signal that is connected is handled.
pub data Place : Type 0 where
  here : ℕ → Place
  into : ℕ → Place → Place

abbrev pub shown : Toolkit → Handler → Properties → DbusItems → DbusItems
shown toolkit no_handler item children = children
shown toolkit on_activated item children = children
shown toolkit on_about_to_show item children = on_submenu_show toolkit item children

abbrev pub activated : Handler → Properties → Option (ℕ × ℕ)
activated no_handler item = none
activated on_about_to_show item = none
activated on_activated item = on_item_activated item

abbrev pub show_at : Toolkit → Place → DbusItems → DbusItems
show_at toolkit place no_items = no_items
show_at toolkit (here zero) (menuitem item children rest) =
    menuitem item (shown toolkit item.handler item children) rest
show_at toolkit (here (suc n)) (menuitem item children rest) =
    menuitem item children (show_at toolkit (here n) rest)
show_at toolkit (into zero place) (menuitem item children rest) =
    menuitem item (show_at toolkit place children) rest
show_at toolkit (into (suc n) place) (menuitem item children rest) =
    menuitem item children (show_at toolkit (into n place) rest)

abbrev pub show_each : Toolkit → List Place → DbusItems → DbusItems
show_each toolkit [] items = items
show_each toolkit (place ∷ rest) items = show_each toolkit rest (show_at toolkit place items)

abbrev pub activate_at : Place → DbusItems → Option (ℕ × ℕ)
activate_at place no_items = none
activate_at (here zero) (menuitem item children rest) = activated item.handler item
activate_at (here (suc n)) (menuitem item children rest) = activate_at (here n) rest
activate_at (into zero place) (menuitem item children rest) = activate_at place children
activate_at (into (suc n) place) (menuitem item children rest) = activate_at (into n place) rest
