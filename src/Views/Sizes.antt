-- ===== src/Views/Sizes.antt =====
-- The content size of a window (atom/browser/native_window_views.cc), with and without a menu bar.
use atom_shell.Common.{
  ℕ, ◌+◌, ◌-◌, ◌≡◌, refl, ap, sym, ◌∙◌, Bool, true, false, not, ◌&&◌, Option, none, some, List,
  if◌then◌else◌, arith, Bool-cases, inl, inr,
}
use atom_shell.Views.MenuBar.{Item, Labels, MenuBar, new_menu_bar, menu_bar_height, Size}
use atom_shell.Views.Window.{
  Frame, WindowViews, set_menu_bar_visibility, set_visibility_of, set_content_size,
  get_content_size, content_bounds_to_window_bounds, set_menu, with_menu_bar, is_some,
  fill_menu_bar, set_bounds, same_bool, bar_height, lower, taller,
}
use atom_shell.Views.Children.{IsCoherent}

-- A window made for a client area, and then made taller, has a client area taller by as much.
abbrev pub IsRigid : Frame → Type 0
IsRigid frame =
    (d : ℕ) (size : Size)
    → frame.client_size (taller d (frame.window_size_for_client size)) ≡ taller d size

lower-taller : (d : ℕ) (size : Size) → lower d (taller d size) ≡ size
lower-taller d (width, height) = ap (λ h. (width, h)) (same d height)
  where
    same : (d height : ℕ) → height + d - d ≡ height
    same d height = omega arith

set_bounds-window_size : (size : Size) (w : WindowViews) → (set_bounds size w).window_size ≡ size
unfolding set_bounds
set_bounds-window_size size w = elim (Bool-cases w.resizable) [
  | inl r ↦ simp r refl
  | inr r ↦ simp r refl
]

set_bounds-has_frame : (size : Size) (w : WindowViews) → (set_bounds size w).has_frame ≡ w.has_frame
unfolding set_bounds
set_bounds-has_frame size w = elim (Bool-cases w.resizable) [
  | inl r ↦ simp r refl
  | inr r ↦ simp r refl
]

set_bounds-bar_height :
    (size : Size) (w : WindowViews) → bar_height (set_bounds size w) ≡ bar_height w
unfolding set_bounds
set_bounds-bar_height size w = elim (Bool-cases w.resizable) [
  | inl r ↦ simp r refl
  | inr r ↦ simp r refl
]

abbrev content_of : Frame → Bool → Size → ℕ → Size
content_of frame has_frame size height =
    if not has_frame then size else lower height (frame.client_size size)

set_bounds-content :
    (frame : Frame) (size : Size) (w : WindowViews)
    → get_content_size frame (set_bounds size w) ≡ content_of frame w.has_frame size (bar_height w)
unfolding get_content_size
set_bounds-content frame size w =
    rw (set_bounds-has_frame size w, set_bounds-window_size size w, set_bounds-bar_height size w)

set_content_size_lem :
    (frame : Frame) (size : Size) (w : WindowViews)
    → set_content_size frame size w
      ≡ set_bounds
          (if not w.has_frame
            then size
            else taller (bar_height w) (frame.window_size_for_client size))
          w
unfolding set_content_size content_bounds_to_window_bounds
set_content_size_lem frame size w = elim (Bool-cases w.has_frame) [
  | inl f ↦ simp f refl
  | inr f ↦ simp f refl
]

content_of_lem :
    (frame : Frame) (has_frame : Bool) (size : Size) (height : ℕ)
    → IsRigid frame
    → content_of frame has_frame
        (if not has_frame then size else taller height (frame.window_size_for_client size))
        height
      ≡ size
content_of_lem frame false size height rigid = refl
content_of_lem frame true size height rigid =
    ap (lower height) (rigid height size) ∙ lower-taller height size

-- In a rigid frame, for every window, with or without a frame or a visible menu bar and resizable or not, the
-- content size that GetContentSize reads after SetContentSize is the size that was set.
pub set_content_size-get_content_size :
    (frame : Frame) (size : Size) (w : WindowViews)
    → IsRigid frame
    → get_content_size frame (set_content_size frame size w) ≡ size
set_content_size-get_content_size frame size w rigid =
    ap (get_content_size frame) (set_content_size_lem frame size w)
    ∙ set_bounds-content frame _ w
    ∙ content_of_lem frame w.has_frame size (bar_height w) rigid

-- What SetMenu keeps of the sizes of a window.
abbrev pub KeepsSize : Frame → WindowViews → WindowViews → Type 0
KeepsSize frame w v =
    (w.use_content_size ≡ true → get_content_size frame v ≡ get_content_size frame w)
    × (w.use_content_size ≡ false → v.window_size ≡ w.window_size)

KeepsSize-if :
    (frame : Frame) (b : Bool) (w u v : WindowViews)
    → (b ≡ true → KeepsSize frame w u)
    → (b ≡ false → KeepsSize frame w v)
    → KeepsSize frame w (if b then u else v)
KeepsSize-if frame true w u v h k = h refl
KeepsSize-if frame false w u v h k = k refl

not_visible :
    (there visible : Bool) → there ≡ false → (visible ≡ true → there ≡ true) → visible ≡ false
not_visible there visible none_there exists = ground (arith, exists)

no_height :
    (there visible : Bool) → visible ≡ false → (if there && visible then menu_bar_height else 0) ≡ 0
no_height there visible invisible = ground arith

shown-window_size : (w : WindowViews) → (set_menu_bar_visibility true w).window_size ≡ w.window_size
unfolding set_menu_bar_visibility
shown-window_size w = shown w.menu_bar
  where
    shown : (o : Option MenuBar) → (set_visibility_of o true w).window_size ≡ w.window_size
    shown none = refl
    shown (some bar) = elim (Bool-cases (same_bool w.menu_bar_visible true)) [
      | inl q ↦ simp q refl
      | inr q ↦ simp q refl
    ]

with_menu_bar-KeepsSize :
    (frame : Frame) (w : WindowViews)
    → IsRigid frame
    → IsCoherent w
    → KeepsSize frame w (with_menu_bar frame w)
unfolding get_content_size
with_menu_bar-KeepsSize frame w rigid h =
    KeepsSize-if frame (is_some w.menu_bar) w _ _ (λ _. (λ _. refl, λ _. refl))
      (λ absent.
        KeepsSize-if frame w.menu_bar_autohide w _ _ (λ _. (λ _. unseen (hidden absent), λ _. refl))
          (λ _.
            KeepsSize-if frame w.use_content_size w _ _
              (λ used. (
                λ _. set_content_size-get_content_size frame _ _ rigid,
                λ unused. ground (arith, used),
              ))
              (λ unused. (
                λ used. ground (arith, used),
                λ _. shown-window_size (record w { menu_bar = some new_menu_bar }),
              ))))
  where
    hidden : is_some w.menu_bar ≡ false → w.menu_bar_visible ≡ false
    hidden absent = not_visible (is_some w.menu_bar) w.menu_bar_visible absent h.exists

    unseen :
        w.menu_bar_visible ≡ false
        → get_content_size frame (record w { menu_bar = some new_menu_bar })
          ≡ get_content_size frame w
    unseen invisible = ap (content_of frame w.has_frame w.window_size) (
        no_height true w.menu_bar_visible invisible
        ∙ sym (no_height (is_some w.menu_bar) w.menu_bar_visible invisible))

filled-bar_height :
    (labels : Labels) (items : List Item) (o : Option MenuBar) (visible : Bool)
    → (if is_some (fill_menu_bar labels items o) && visible then menu_bar_height else 0)
      ≡ (if is_some o && visible then menu_bar_height else 0)
filled-bar_height labels items none visible = refl
filled-bar_height labels items (some bar) visible = refl

-- In a rigid frame, SetMenu of a window that agrees with its views, whether the menu is global, the first of the
-- window or a later one, keeps the content size of a window that uses the content size, and the outer size of
-- one that does not.
pub set_menu-KeepsSize :
    (frame : Frame) (labels : Labels) (server_started : Bool) (items : List Item) (w : WindowViews)
    → IsRigid frame
    → IsCoherent w
    → KeepsSize frame w (set_menu frame labels server_started items w)
unfolding set_menu get_content_size
set_menu-KeepsSize frame labels server_started items w rigid h =
    KeepsSize-if frame server_started w _ _ (λ _. (λ _. refl, λ _. refl))
      (λ _.
        KeepsSize-if frame (not w.has_frame) w _ _ (λ _. (λ _. refl, λ _. refl))
          (λ _. (λ used. same_content ∙ kept.0 used, kept.1)))
  where
    barred : WindowViews
    barred = with_menu_bar frame w

    kept : KeepsSize frame w barred
    kept = with_menu_bar-KeepsSize frame w rigid h

    same_content :
        content_of frame barred.has_frame barred.window_size
          (bar_height (record barred { menu_bar = fill_menu_bar labels items barred.menu_bar }))
        ≡ content_of frame barred.has_frame barred.window_size (bar_height barred)
    same_content =
        ap (content_of frame barred.has_frame barred.window_size)
          (filled-bar_height labels items barred.menu_bar barred.menu_bar_visible)
