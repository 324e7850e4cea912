-- ===== src/Views/Coherent.antt =====
-- The views of a window (atom/browser/native_window_views.cc) agree with what it records of its menu bar.
use atom_shell.Common.{
  ◌≡◌, refl, Bool, true, false, not, ◌&&◌, Option, none, some, List, [], ◌∷◌, if◌then◌else◌, arith,
}
use mathlib.Core.Path.{subst}
use atom_shell.Views.MenuBar.{Item, Labels, MenuBar, new_menu_bar, set_accelerator_visibility, Size}
use atom_shell.Views.Window.{
  Frame, WindowViews, new_window_views, Child, set_menu_bar_visibility, set_auto_hide_menu_bar,
  set_menu, with_menu_bar, on_widget_activation_changed, activate_contents, on_menu_bar, is_some,
  fill_menu_bar, Call, call, calls, set_menu_call, set_auto_hide_call, set_visibility_call,
  set_content_size_call,
}
use atom_shell.Views.Keys.{
  KeyEvent, Event, is_alt_key, is_raw_key_down, click_button, handle_keyboard_event,
  handle_menu_key, open_by_key, toggle_by_alt, handle, run, script_call, key, activation,
  contents_activated, button_clicked,
}
use atom_shell.Views.Children.{
  IsCoherent, set_menu_bar_visibility-IsCoherent, IsCoherent-if, IsCoherent-unless,
  hidden_if-IsCoherent, set_content_size-IsCoherent, on_menu_bar-IsCoherent, Agrees,
}

made-Agrees :
    (has_frame there visible holds : Bool) (children : List Child)
    → has_frame ≡ true
    → Agrees has_frame there visible holds children
    → Agrees has_frame true visible holds children
made-Agrees has_frame there visible holds children f h = record {
  checked = h.checked;
  viewed = h.viewed;
  exists = λ _. refl;
  framed = λ _. f;
}

with_menu_bar-IsCoherent :
    (frame : Frame) (w : WindowViews)
    → w.has_frame ≡ true
    → IsCoherent w
    → IsCoherent (with_menu_bar frame w)
with_menu_bar-IsCoherent frame w f h = IsCoherent-if (is_some w.menu_bar) _ _ h (
    IsCoherent-if w.menu_bar_autohide _ _ made
      (IsCoherent-if w.use_content_size _ _ (set_content_size-IsCoherent frame _ _ shown) shown))
  where
    made : IsCoherent (record w { menu_bar = some new_menu_bar })
    made =
        made-Agrees w.has_frame (is_some w.menu_bar) w.menu_bar_visible w.dchecks_hold w.children f
          h

    shown : IsCoherent (set_menu_bar_visibility true (record w { menu_bar = some new_menu_bar }))
    shown = set_menu_bar_visibility-IsCoherent true _ made

filled-IsCoherent :
    (labels : Labels) (items : List Item) (w : WindowViews)
    → IsCoherent w
    → IsCoherent (record w { menu_bar = fill_menu_bar labels items w.menu_bar })
filled-IsCoherent labels items w h =
    subst (λ there. Agrees w.has_frame there w.menu_bar_visible w.dchecks_hold w.children)
      (same w.menu_bar) h
  where
    same : (o : Option MenuBar) → is_some o ≡ is_some (fill_menu_bar labels items o)
    same none = refl
    same (some bar) = refl

set_menu-IsCoherent :
    (frame : Frame) (labels : Labels) (server_started : Bool) (items : List Item) (w : WindowViews)
    → IsCoherent w
    → IsCoherent (set_menu frame labels server_started items w)
unfolding set_menu
set_menu-IsCoherent frame labels server_started items w h = IsCoherent-if server_started _ _ h (
    IsCoherent-unless w.has_frame _ _ h (λ f.
      filled-IsCoherent labels items (with_menu_bar frame w)
        (with_menu_bar-IsCoherent frame w f h)))

call-IsCoherent :
    (frame : Frame) (labels : Labels) (c : Call) (w : WindowViews)
    → IsCoherent w
    → IsCoherent (call frame labels c w)
unfolding call set_auto_hide_menu_bar
call-IsCoherent frame labels (set_menu_call server_started items) w h =
    set_menu-IsCoherent frame labels server_started items w h
call-IsCoherent frame labels (set_auto_hide_call auto_hide) w h = h
call-IsCoherent frame labels (set_visibility_call visible) w h =
    set_menu_bar_visibility-IsCoherent visible w h
call-IsCoherent frame labels (set_content_size_call size) w h =
    set_content_size-IsCoherent frame size w h

calls-IsCoherent :
    (frame : Frame) (labels : Labels) (cs : List Call) (w : WindowViews)
    → IsCoherent w
    → IsCoherent (calls frame labels cs w)
calls-IsCoherent frame labels [] w h = h
calls-IsCoherent frame labels (c ∷ rest) w h =
    calls-IsCoherent frame labels rest (call frame labels c w) (call-IsCoherent frame labels c w h)

activate_contents-IsCoherent : (w : WindowViews) → IsCoherent w → IsCoherent (activate_contents w)
unfolding activate_contents
activate_contents-IsCoherent w h =
    hidden_if-IsCoherent (w.menu_bar_autohide && w.menu_bar_visible) w h

on_widget_activation_changed-IsCoherent :
    (active focuses : Bool) (w : WindowViews)
    → IsCoherent w
    → IsCoherent (on_widget_activation_changed active focuses w)
unfolding on_widget_activation_changed
on_widget_activation_changed-IsCoherent active focuses w h =
    hidden_if-IsCoherent _ _ (IsCoherent-if (active && focuses) _ _ h h)

toggle_by_alt-IsCoherent :
    (event : KeyEvent) (w : WindowViews) → IsCoherent w → IsCoherent (toggle_by_alt event w)
unfolding toggle_by_alt
toggle_by_alt-IsCoherent event w h = IsCoherent-if _ _ _ h (
    IsCoherent-if _ _ _
      (set_menu_bar_visibility-IsCoherent (not w.menu_bar_visible)
        (record w { menu_bar_alt_pressed = false }) h)
      h)

open_by_key-IsCoherent :
    (event : KeyEvent) (w : WindowViews) → IsCoherent w → IsCoherent (open_by_key event w)
unfolding open_by_key
open_by_key-IsCoherent event w h =
    on_menu_bar-IsCoherent _ _ (IsCoherent-if _ _ _ (set_menu_bar_visibility-IsCoherent true w h) h)

handle_menu_key-IsCoherent :
    (event : KeyEvent) (w : WindowViews) → IsCoherent w → IsCoherent (handle_menu_key event w)
unfolding handle_menu_key
handle_menu_key-IsCoherent event w h = IsCoherent-if _ _ _ h (
    IsCoherent-if _ _ _ (open_by_key-IsCoherent event _ marked)
      (IsCoherent-if _ _ _ marked (toggle_by_alt-IsCoherent event _ marked)))
  where
    marked : IsCoherent (
        if w.menu_bar_visible && is_alt_key event
        then on_menu_bar (set_accelerator_visibility (is_raw_key_down event.type)) w
        else w)
    marked = IsCoherent-if _ _ _ (on_menu_bar-IsCoherent _ w h) h

module _ (frame : Frame) (labels : Labels) (unhandled : KeyEvent → List Call) where
  handle-IsCoherent :
      (e : Event) (w : WindowViews) → IsCoherent w → IsCoherent (handle frame labels unhandled e w)
  unfolding handle handle_keyboard_event
  handle-IsCoherent (script_call c) w h = call-IsCoherent frame labels c w h
  handle-IsCoherent (key event) w h =
      handle_menu_key-IsCoherent event _ (calls-IsCoherent frame labels (unhandled event) w h)
  handle-IsCoherent (activation active focuses) w h =
      on_widget_activation_changed-IsCoherent active focuses w h
  handle-IsCoherent contents_activated w h = activate_contents-IsCoherent w h
  handle-IsCoherent (button_clicked i) w h = on_menu_bar-IsCoherent (click_button i) w h

  run_from-IsCoherent :
      (es : List Event) (w : WindowViews)
      → IsCoherent w
      → IsCoherent (run frame labels unhandled es w)
  unfolding run
  run_from-IsCoherent [] w h = h
  run_from-IsCoherent (e ∷ rest) w h = run_from-IsCoherent rest _ (handle-IsCoherent e w h)

-- After every sequence of calls, keys, clicks and changes of focus that a new window meets, no DCHECK on the number of
-- its views has failed, its children are the web view and, exactly when the menu bar is recorded as visible, the
-- menu bar after it, only a menu bar that exists is visible, and a window without a frame has none.
pub run-IsCoherent :
    (frame : Frame) (labels : Labels) (unhandled : KeyEvent → List Call)
    (has_frame auto_hide use_content_size resizable : Bool) (size : Size) (es : List Event)
    → IsCoherent (
        run frame labels unhandled es
          (new_window_views has_frame auto_hide use_content_size resizable size))
unfolding new_window_views
run-IsCoherent frame labels unhandled has_frame auto_hide use_content_size resizable size es =
    run_from-IsCoherent frame labels unhandled es _ (record {
      checked = refl;
      viewed = refl;
      exists = λ e. ground arith;
      framed = λ e. ground arith;
    })
