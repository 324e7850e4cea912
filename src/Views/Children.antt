-- ===== src/Views/Children.antt =====
-- The views of a window (atom/browser/native_window_views.cc), when its menu bar is shown, hidden or changed.
use atom_shell.Common.{
  ◌≡◌, refl, Bool, true, false, not, ◌&&◌, Option, none, some, List, [], ◌∷◌, ◌++◌, length,
  if◌then◌else◌, arith, Bool-cases, inl, inr, ◌==◌,
}
use mathlib.Core.Path.{subst}
use atom_shell.Views.MenuBar.{MenuBar, Size}
use atom_shell.Views.Window.{
  Frame, WindowViews, Child, web_view, menu_bar_view, set_menu_bar_visibility, set_visibility_of,
  set_content_size, on_menu_bar, is_some, set_bounds, same_bool, remove_menu_bar_view,
}

-- The web view comes first, and the menu bar follows it when it is visible.
abbrev pub child_views : Bool → List Child
child_views visible = if visible then web_view ∷ menu_bar_view ∷ [] else web_view ∷ []

-- Every DCHECK has held, the children are those, only a menu bar that exists is visible, and there is none without
-- a frame.
pub record Agrees (has_frame there visible holds : Bool) (children : List Child) : Type 0 where
  pub checked : holds ≡ true
  pub viewed : children ≡ child_views visible
  pub exists : visible ≡ true → there ≡ true
  pub framed : there ≡ true → has_frame ≡ true

abbrev pub IsCoherent : WindowViews → Type 0
IsCoherent w = Agrees w.has_frame (is_some w.menu_bar) w.menu_bar_visible w.dchecks_hold w.children

changed-Agrees :
    (has_frame now visible holds : Bool) (children : List Child)
    → same_bool now visible ≡ false
    → Agrees has_frame true now holds children
    → Agrees has_frame true visible
        (holds && (length children == (if visible then 1 else 2)))
        (if visible then children ++ (menu_bar_view ∷ []) else remove_menu_bar_view children)
changed-Agrees has_frame true true holds children q h = ground (arith, q)
changed-Agrees has_frame false false holds children q h = ground (arith, q)
changed-Agrees has_frame true false holds children q h = record {
  checked = rw (h.viewed, h.checked);
  viewed = rw h.viewed;
  exists = λ _. refl;
  framed = h.framed;
}
changed-Agrees has_frame false true holds children q h = record {
  checked = rw (h.viewed, h.checked);
  viewed = rw h.viewed;
  exists = λ _. refl;
  framed = h.framed;
}

set_visibility_of-IsCoherent :
    (o : Option MenuBar) (visible : Bool) (w : WindowViews)
    → w.menu_bar ≡ o
    → IsCoherent w
    → IsCoherent (set_visibility_of o visible w)
set_visibility_of-IsCoherent none visible w e h = h
set_visibility_of-IsCoherent (some bar) visible w e h =
    elim (Bool-cases (same_bool w.menu_bar_visible visible)) [
      | inl q ↦ rw q h
      | inr q ↦ rw q (
          changed-Agrees w.has_frame w.menu_bar_visible visible w.dchecks_hold w.children q (
            subst (λ o. Agrees w.has_frame (is_some o) w.menu_bar_visible w.dchecks_hold w.children)
              e h))
    ]

pub set_menu_bar_visibility-IsCoherent :
    (visible : Bool) (w : WindowViews)
    → IsCoherent w
    → IsCoherent (set_menu_bar_visibility visible w)
unfolding set_menu_bar_visibility
set_menu_bar_visibility-IsCoherent visible w h =
    set_visibility_of-IsCoherent w.menu_bar visible w refl h

pub IsCoherent-if :
    (b : Bool) (w v : WindowViews) → IsCoherent w → IsCoherent v → IsCoherent (if b then w else v)
IsCoherent-if true w v h k = h
IsCoherent-if false w v h k = k

pub IsCoherent-unless :
    (b : Bool) (w v : WindowViews)
    → IsCoherent w
    → (b ≡ true → IsCoherent v)
    → IsCoherent (if not b then w else v)
IsCoherent-unless true w v h k = k refl
IsCoherent-unless false w v h k = h

pub hidden_if-IsCoherent :
    (b : Bool) (w : WindowViews)
    → IsCoherent w
    → IsCoherent (if b then set_menu_bar_visibility false w else w)
hidden_if-IsCoherent b w h = IsCoherent-if b _ _ (set_menu_bar_visibility-IsCoherent false w h) h

set_bounds-IsCoherent :
    (size : Size) (w : WindowViews) → IsCoherent w → IsCoherent (set_bounds size w)
unfolding set_bounds
set_bounds-IsCoherent size w h = IsCoherent-if w.resizable _ _ h h

pub set_content_size-IsCoherent :
    (frame : Frame) (size : Size) (w : WindowViews)
    → IsCoherent w
    → IsCoherent (set_content_size frame size w)
unfolding set_content_size
set_content_size-IsCoherent frame size w h =
    IsCoherent-if (not w.has_frame) _ _ (set_bounds-IsCoherent size w h)
      (set_bounds-IsCoherent _ w h)

pub on_menu_bar-IsCoherent :
    (f : MenuBar → MenuBar) (w : WindowViews) → IsCoherent w → IsCoherent (on_menu_bar f w)
on_menu_bar-IsCoherent f w h = kept w.menu_bar refl
  where
    kept :
        (o : Option MenuBar)
        → w.menu_bar ≡ o
        → IsCoherent (elim o [ none ↦ w | some bar ↦ record w { menu_bar = some (f bar) } ])
    kept none e = h
    kept (some bar) e =
        subst (λ o. Agrees w.has_frame (is_some o) w.menu_bar_visible w.dchecks_hold w.children) e h
