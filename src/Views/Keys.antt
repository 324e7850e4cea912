-- ===== src/Views/Keys.antt =====
-- HandleKeyboardEvent of atom/browser/native_window_views.cc and the events of a window.
use atom_shell.Common.{
  ℕ, Bool, true, false, not, ◌&&◌, ◌||◌, Option, none, some, List, [], ◌∷◌, ◌==◌, if◌then◌else◌,
  get_elem?,
}
use atom_shell.Views.MenuBar.{
  Labels, MenuBar, set_accelerator_visibility, get_accelerator_index, activate_accelerator, click,
}
use atom_shell.Views.Window.{
  Frame, WindowViews, set_menu_bar_visibility, on_widget_activation_changed, activate_contents,
  on_menu_bar, is_some, Call, call, calls,
}

-- The modifiers that the code names; `others` is whether any other is set.
pub record Modifiers : Type 0 where
  pub alt_key : Bool
  pub is_left : Bool
  pub is_right : Bool
  pub num_lock_on : Bool
  pub caps_lock_on : Bool
  pub others : Bool

pub data KeyType : Type 0 where
  raw_key_down : KeyType
  key_up : KeyType
  other_type : KeyType

pub record KeyEvent : Type 0 where
  pub type : KeyType
  pub windows_key_code : ℕ
  pub modifiers : Modifiers

abbrev pub is_raw_key_down : KeyType → Bool
is_raw_key_down raw_key_down = true
is_raw_key_down key_up = false
is_raw_key_down other_type = false

abbrev pub is_key_up : KeyType → Bool
is_key_up raw_key_down = false
is_key_up key_up = true
is_key_up other_type = false

unfoldable pub is_alt_key : KeyEvent → Bool
is_alt_key event = (event.windows_key_code == 164) || (event.windows_key_code == 165)

-- Alt alone, Alt and IsLeft, or Alt and IsRight.
unfoldable pub is_alt_modifier : KeyEvent → Bool
is_alt_modifier event =
    event.modifiers.alt_key
    && not event.modifiers.others
    && not (event.modifiers.is_left && event.modifiers.is_right)

-- modifiers == 0.
abbrev pub no_modifiers : Modifiers → Bool
no_modifiers m =
    not (m.alt_key || m.is_left || m.is_right || m.num_lock_on || m.caps_lock_on || m.others)

-- The part that toggles an auto-hide menu bar.
unfoldable pub toggle_by_alt : KeyEvent → WindowViews → WindowViews
toggle_by_alt event w =
    if is_raw_key_down event.type && is_alt_key event
    then record w { menu_bar_alt_pressed = true }
    else if is_key_up event.type
        && is_alt_key event
        && no_modifiers event.modifiers
        && w.menu_bar_alt_pressed
    then set_menu_bar_visibility (not w.menu_bar_visible)
        (record w { menu_bar_alt_pressed = false })
    else record w { menu_bar_alt_pressed = false }

abbrev pub has_accelerator : ℕ → Option MenuBar → Bool
has_accelerator key none = false
has_accelerator key (some bar) = is_some (get_accelerator_index key bar)

abbrev pub is_alt_and_key : KeyEvent → Bool
is_alt_and_key event = is_raw_key_down event.type && not (is_alt_key event) && is_alt_modifier event

-- "Alt+Key".
unfoldable pub open_by_key : KeyEvent → WindowViews → WindowViews
open_by_key event w = on_menu_bar (activate_accelerator event.windows_key_code) (
    if not w.menu_bar_visible && has_accelerator event.windows_key_code w.menu_bar
    then set_menu_bar_visibility true w
    else w)

-- HandleKeyboardEvent, after the UnhandledKeyboardEventHandler.
unfoldable pub handle_menu_key : KeyEvent → WindowViews → WindowViews
handle_menu_key event w =
    let marked =
      if w.menu_bar_visible && is_alt_key event
      then on_menu_bar (set_accelerator_visibility (is_raw_key_down event.type)) w
      else w in
    if not (is_some w.menu_bar)
    then w
    else if is_alt_and_key event
    then open_by_key event marked
    else if not w.menu_bar_autohide
    then marked
    else toggle_by_alt event marked

-- HandleKeyboardEvent; `unhandled` are the calls of the commands that the UnhandledKeyboardEventHandler runs.
unfoldable pub handle_keyboard_event :
    Frame → Labels → (KeyEvent → List Call) → KeyEvent → WindowViews → WindowViews
handle_keyboard_event frame labels unhandled event w =
    handle_menu_key event (calls frame labels (unhandled event) w)

abbrev pub click_button : ℕ → MenuBar → MenuBar
click_button i bar = click (get_elem? bar.buttons i) bar

pub data Event : Type 0 where
  script_call : Call → Event
  key : KeyEvent → Event
  activation : Bool → Bool → Event
  contents_activated : Event
  button_clicked : ℕ → Event

unfoldable pub handle : Frame → Labels → (KeyEvent → List Call) → Event → WindowViews → WindowViews
handle frame labels unhandled (script_call c) w = call frame labels c w
handle frame labels unhandled (key event) w = handle_keyboard_event frame labels unhandled event w
handle frame labels unhandled (activation active focuses) w =
    on_widget_activation_changed active focuses w
handle frame labels unhandled contents_activated w = activate_contents w
handle frame labels unhandled (button_clicked i) w = on_menu_bar (click_button i) w

unfoldable pub run :
    Frame → Labels → (KeyEvent → List Call) → List Event → WindowViews → WindowViews
run frame labels unhandled [] w = w
run frame labels unhandled (e ∷ rest) w =
    run frame labels unhandled rest (handle frame labels unhandled e w)
