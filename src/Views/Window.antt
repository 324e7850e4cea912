-- ===== src/Views/Window.antt =====
-- NativeWindowViews (atom/browser/native_window_views.cc): the menu bar and the sizes. The frame is the
-- window manager's; DCHECKs are recorded and do not stop the program.
use atom_shell.Common.{
  ℕ, ◌+◌, ◌-◌, Bool, true, false, not, ◌&&◌, Option, none, some, List, [], ◌∷◌, ◌++◌, length, ◌==◌,
  if◌then◌else◌,
}
use atom_shell.Views.MenuBar.{
  Item, Labels, MenuBar, new_menu_bar, set_bar_menu, set_accelerator_visibility, Size,
  menu_bar_height,
}

pub data Child : Type 0 where
  web_view : Child
  menu_bar_view : Child

pub data Notification : Type 0 where
  window_focus : Notification
  window_blur : Notification
  web_contents_focus : Notification

-- The sizes of the window that has a client area, and of the client area of a window.
pub record Frame : Type 0 where
  pub window_size_for_client : Size → Size
  pub client_size : Size → Size

-- `global_menu` is the menu of global_menu_bar_; the newest notification is first.
pub record WindowViews : Type 0 where
  pub has_frame : Bool
  pub use_content_size : Bool
  pub resizable : Bool
  pub window_size : Size
  pub minimum_size : Size
  pub maximum_size : Size
  pub menu_bar : Option MenuBar
  pub menu_bar_autohide : Bool
  pub menu_bar_visible : Bool
  pub menu_bar_alt_pressed : Bool
  pub children : List Child
  pub global_menu : Option (List Item)
  pub notifications : List Notification
  pub dchecks_hold : Bool

-- The constructor, with its options, for a window of the given size.
unfoldable pub new_window_views : Bool → Bool → Bool → Bool → Size → WindowViews
new_window_views has_frame auto_hide_menu_bar use_content_size resizable size = record {
  has_frame = has_frame;
  use_content_size = has_frame && use_content_size;
  resizable = resizable;
  window_size = size;
  minimum_size = (0, 0);
  maximum_size = (0, 0);
  menu_bar = none;
  menu_bar_autohide = auto_hide_menu_bar;
  menu_bar_visible = false;
  menu_bar_alt_pressed = false;
  children = web_view ∷ [];
  global_menu = none;
  notifications = [];
  dchecks_hold = true;
}

abbrev pub is_menu_bar_view : Child → Bool
is_menu_bar_view web_view = false
is_menu_bar_view menu_bar_view = true

-- RemoveChildView of the menu bar.
abbrev pub remove_menu_bar_view : List Child → List Child
remove_menu_bar_view [] = []
remove_menu_bar_view (c ∷ rest) = if is_menu_bar_view c then rest else c ∷ remove_menu_bar_view rest

abbrev pub same_bool : Bool → Bool → Bool
same_bool true b = b
same_bool false b = not b

abbrev pub set_visibility_of : Option MenuBar → Bool → WindowViews → WindowViews
set_visibility_of none visible w = w
set_visibility_of (some bar) visible w =
    if same_bool w.menu_bar_visible visible then w else record w {
      menu_bar = some (if w.menu_bar_autohide then set_accelerator_visibility visible bar else bar);
      menu_bar_visible = visible;
      dchecks_hold = w.dchecks_hold && (length w.children == (if visible then 1 else 2));
      children =
          if visible then w.children ++ (menu_bar_view ∷ []) else remove_menu_bar_view w.children;
    }

unfoldable pub set_menu_bar_visibility : Bool → WindowViews → WindowViews
set_menu_bar_visibility visible w = set_visibility_of w.menu_bar visible w

unfoldable pub set_auto_hide_menu_bar : Bool → WindowViews → WindowViews
set_auto_hide_menu_bar auto_hide w = record w { menu_bar_autohide = auto_hide }

-- The minimum and the maximum follow the size of a window that is not resizable.
unfoldable pub set_bounds : Size → WindowViews → WindowViews
set_bounds size w =
    if w.resizable
    then record w { window_size = size }
    else record w { maximum_size = size; minimum_size = size; window_size = size }

abbrev pub is_some {ℓ} : {A : Type ℓ} → Option A → Bool
is_some none = false
is_some (some a) = true

-- The part of the height that the menu bar takes.
abbrev pub bar_height : WindowViews → ℕ
bar_height w = if is_some w.menu_bar && w.menu_bar_visible then menu_bar_height else 0

abbrev pub taller : ℕ → Size → Size
taller d (width, height) = (width, height + d)

abbrev pub lower : ℕ → Size → Size
lower d (width, height) = (width, height - d)

unfoldable pub content_bounds_to_window_bounds : Frame → Size → WindowViews → Size
content_bounds_to_window_bounds frame size w =
    taller (bar_height w) (frame.window_size_for_client size)

unfoldable pub set_content_size : Frame → Size → WindowViews → WindowViews
set_content_size frame size w =
    if not w.has_frame
    then set_bounds size w
    else set_bounds (content_bounds_to_window_bounds frame size w) w

unfoldable pub get_content_size : Frame → WindowViews → Size
get_content_size frame w =
    if not w.has_frame
    then w.window_size
    else lower (bar_height w) (frame.client_size w.window_size)

-- The menu bar that SetMenu makes, if there is none.
abbrev pub with_menu_bar : Frame → WindowViews → WindowViews
with_menu_bar frame w =
    let content_size = get_content_size frame w in
    let made = record w { menu_bar = some new_menu_bar } in
    let shown = set_menu_bar_visibility true made in
    if is_some w.menu_bar
    then w
    else if w.menu_bar_autohide
    then made
    else if w.use_content_size
    then set_content_size frame content_size shown
    else shown

abbrev pub fill_menu_bar : Labels → List Item → Option MenuBar → Option MenuBar
fill_menu_bar labels items none = none
fill_menu_bar labels items (some bar) = some (set_bar_menu labels items bar)

-- SetMenu; `server_started` is whether there is a global menu bar, and its server has started.
unfoldable pub set_menu : Frame → Labels → Bool → List Item → WindowViews → WindowViews
set_menu frame labels server_started items w =
    let barred = with_menu_bar frame w in
    if server_started
    then record w { global_menu = some items }
    else if not w.has_frame
    then w
    else record barred { menu_bar = fill_menu_bar labels items barred.menu_bar }

-- OnWidgetActivationChanged of the window's own widget; `focuses` is whether there are web contents and the
-- developer tools are closed.
unfoldable pub on_widget_activation_changed : Bool → Bool → WindowViews → WindowViews
on_widget_activation_changed active focuses w =
    let notified = record w {
      notifications = (if active then window_focus else window_blur) ∷ w.notifications;
    } in
    let focused = record notified { notifications = web_contents_focus ∷ notified.notifications } in
    let focused_or_not = if active && focuses then focused else notified in
    if not active && w.menu_bar_autohide && w.menu_bar_visible
    then set_menu_bar_visibility false focused_or_not
    else focused_or_not

-- ActivateContents, called when the web view is clicked.
unfoldable pub activate_contents : WindowViews → WindowViews
activate_contents w =
    if w.menu_bar_autohide && w.menu_bar_visible then set_menu_bar_visibility false w else w

-- A function of the menu bar, called through the window.
abbrev pub on_menu_bar : (MenuBar → MenuBar) → WindowViews → WindowViews
on_menu_bar f w = elim w.menu_bar [ none ↦ w | some bar ↦ record w { menu_bar = some (f bar) } ]

-- What scripts call, those included that menu commands run.
pub data Call : Type 0 where
  set_menu_call : Bool → List Item → Call
  set_auto_hide_call : Bool → Call
  set_visibility_call : Bool → Call
  set_content_size_call : Size → Call

unfoldable pub call : Frame → Labels → Call → WindowViews → WindowViews
call frame labels (set_menu_call server_started items) w =
    set_menu frame labels server_started items w
call frame labels (set_auto_hide_call auto_hide) w = set_auto_hide_menu_bar auto_hide w
call frame labels (set_visibility_call visible) w = set_menu_bar_visibility visible w
call frame labels (set_content_size_call size) w = set_content_size frame size w

abbrev pub calls : Frame → Labels → List Call → WindowViews → WindowViews
calls frame labels [] w = w
calls frame labels (c ∷ rest) w = calls frame labels rest (call frame labels c w)
