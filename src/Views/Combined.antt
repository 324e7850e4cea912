-- ===== src/Views/Combined.antt =====
-- Alt with another key, in HandleKeyboardEvent of atom/browser/native_window_views.cc.
use atom_shell.Common.{
  ◌≡◌, refl, ap, sym, ◌∙◌, Bool, true, false, not, ◌&&◌, Option, none, some, if◌then◌else◌, arith,
}
use mathlib.Core.Path.{subst}
use atom_shell.Views.MenuBar.{MenuBar, set_accelerator_visibility}
use atom_shell.Views.Window.{
  WindowViews, set_menu_bar_visibility, set_visibility_of, on_menu_bar, is_some, same_bool,
}
use atom_shell.Views.Keys.{
  KeyEvent, is_raw_key_down, is_alt_key, is_alt_and_key, has_accelerator, open_by_key,
  handle_menu_key,
}
use atom_shell.Views.Taps.{
  Shows, Shows-if, on_menu_bar-Shows, handle_menu_key-Shows, is_alt_press, is_alt_release,
}

set_true-Shows :
    (v p : Bool) (w : WindowViews) → Shows v p w → Shows true p (set_menu_bar_visibility true w)
unfolding set_menu_bar_visibility
set_true-Shows v p w h = changed w.menu_bar h.there
  where
    was_true : (b : Bool) → same_bool b true ≡ true → b ≡ true
    was_true b e = ground (arith, e)

    changed : (o : Option MenuBar) → is_some o ≡ true → Shows true p (set_visibility_of o true w)
    changed none e = ground (arith, e)
    changed (some bar) e =
        Shows-if true p (same_bool w.menu_bar_visible true) _ _
          (λ same. record {
            there = h.there;
            hides = h.hides;
            shown = was_true w.menu_bar_visible same;
            alt = h.alt;
          })
          (λ _. record { there = refl; hides = h.hides; shown = refl; alt = h.alt })

opened-Shows :
    (p has visible v : Bool) (a b : WindowViews)
    → visible ≡ v
    → Shows true p a
    → Shows v p b
    → Shows (if has then true else v) p (if not visible && has then a else b)
opened-Shows p true true v a b e ha hb = subst (λ q. Shows q p b) (sym e) hb
opened-Shows p true false v a b e ha hb = ha
opened-Shows p false true v a b e ha hb = hb
opened-Shows p false false v a b e ha hb = hb

open_by_key-Shows :
    (v p : Bool) (e : KeyEvent) (w : WindowViews)
    → Shows v p w
    → Shows (if has_accelerator e.windows_key_code w.menu_bar then true else v) p (open_by_key e w)
unfolding open_by_key
open_by_key-Shows v p e w h = on_menu_bar-Shows _ p _ _ (
    opened-Shows p (has_accelerator e.windows_key_code w.menu_bar) w.menu_bar_visible v _ _ h.shown
      (set_true-Shows v p w h) h)

combined-Shows :
    (v p : Bool) (e : KeyEvent) (w : WindowViews)
    → is_alt_and_key e ≡ true
    → Shows v p w
    → (v' : Bool) × Shows v' p (handle_menu_key e w)
unfolding handle_menu_key
combined-Shows v p e w both h = (
  _,
  Shows-if _ _ (not (is_some w.menu_bar)) _ _ (λ absent. ground (arith, absent, h.there))
      (λ _.
        Shows-if _ _ (is_alt_and_key e) _ _ (λ _. open_by_key-Shows v p e _ marked)
          (λ single. ground (arith, single, both))),
)
  where
    marked : Shows v p (
        if w.menu_bar_visible && is_alt_key e
        then on_menu_bar (set_accelerator_visibility (is_raw_key_down e.type)) w
        else w)
    marked =
        Shows-if v p (w.menu_bar_visible && is_alt_key e) _ w (λ _. on_menu_bar-Shows v p _ w h)
          (λ _. h)

-- An auto-hide menu bar that exists is toggled by the release of Alt, with no modifier left, also when another key was
-- pressed with Alt between the press of Alt and its release, if no other key event came between them.
pub combined-toggles :
    (visible pressed : Bool) (w : WindowViews) (press combined release : KeyEvent)
    → Shows visible pressed w
    → is_alt_press press ≡ true
    → is_alt_and_key press ≡ false
    → is_alt_and_key combined ≡ true
    → is_alt_release release ≡ true
    → is_alt_and_key release ≡ false
    → (handle_menu_key release
        (handle_menu_key combined (handle_menu_key press w))).menu_bar_visible
      ≡ not (handle_menu_key combined (handle_menu_key press w)).menu_bar_visible
combined-toggles visible pressed w press combined release h is_press press_single both is_release
      release_single =
    let first =
      subst
        (λ q.
          Shows (if is_alt_release press && pressed then not visible else visible) q
            (handle_menu_key press w))
        is_press (handle_menu_key-Shows visible pressed press w press_single h) in
    let second = combined-Shows _ true combined _ both first in
    let third = handle_menu_key-Shows _ true release _ release_single second.1 in
    third.shown
    ∙ ap (λ q. if q && true then not second.0 else second.0) is_release
    ∙ ap not (sym second.1.shown)
