-- ===== src/Frameless/Hits.antt =====
-- DraggableRegionsChanged (atom/renderer/atom_render_view_observer.cc), UpdateDraggableRegions and
-- ShouldDescendIntoChildForEventHandling (atom/browser/native_window_views.cc), and FramelessView
-- (atom/browser/ui/views/frameless_view.cc).
use atom_shell.Common.{
  ℕ, Bool, true, false, not, ◌&&◌, ◌||◌, Option, none, some, List, [], ◌∷◌, ◌==◌, if◌then◌else◌,
}
use atom_shell.Common.Int.{ℤ, pos, ◌+ℤ◌}

-- gfx::Rect.
pub record Rect : Type 0 where
  pub x : ℤ
  pub y : ℤ
  pub width : ℕ
  pub height : ℕ

abbrev pub right : Rect → ℤ
right r = r.x +ℤ pos r.width

abbrev pub bottom : Rect → ℤ
bottom r = r.y +ℤ pos r.height

pub record DraggableRegion : Type 0 where
  pub bounds : Rect
  pub draggable : Bool

-- blink::WebDraggableRegion.
pub record WebDraggableRegion : Type 0 where
  pub bounds : Rect
  pub draggable : Bool

-- The regions that are sent to the browser.
abbrev pub draggable_regions_changed : List WebDraggableRegion → List DraggableRegion
draggable_regions_changed [] = []
draggable_regions_changed (region ∷ rest) =
    record { bounds = region.bounds; draggable = region.draggable } ∷ draggable_regions_changed rest

pub data Op : Type 0 where
  union_op : Op
  difference_op : Op

-- SkRegion: the empty one, `op` with a left, a top, a right and a bottom, and `contains`.
pub record SkRegions : Type 1 where
  pub SkRegion : Type 0
  pub empty_region : SkRegion
  pub op : ℤ → ℤ → ℤ → ℤ → Op → SkRegion → SkRegion
  pub contains : SkRegion → ℤ → ℤ → Bool

-- The hit-test codes that are named here; the others are those of the borders and corners.
pub data HitTest : Type 0 where
  htnowhere : HitTest
  htclient : HitTest
  htcaption : HitTest
  htborder : ℕ → HitTest

-- The frame: a views::Widget and its delegate, and GetHTComponentForFrame of a point, the thickness of the border, the
-- size of a corner and whether the window can be resized.
pub record Frame : Type 0 where
  pub has_delegate : Bool
  pub can_resize : Bool
  pub is_maximized : Bool
  pub is_fullscreen : Bool
  pub get_ht_component_for_frame : ℤ → ℤ → ℕ → ℕ → Bool → HitTest

abbrev pub resize_inside_bounds_size : ℕ
resize_inside_bounds_size = 5

abbrev pub resize_area_corner_size : ℕ
resize_area_corner_size = 16

unfoldable pub resizing_border_hit_test : Frame → ℤ → ℤ → HitTest
resizing_border_hit_test frame x y =
    frame.get_ht_component_for_frame x y
      (if frame.is_maximized || frame.is_fullscreen then 0 else resize_inside_bounds_size)
      resize_area_corner_size (if frame.has_delegate then frame.can_resize else false)

abbrev pub is_empty : Rect → Bool
is_empty r = (r.width == 0) || (r.height == 0)

unfoldable pub get_window_bounds_for_client_bounds : Rect → Rect
get_window_bounds_for_client_bounds r = if is_empty r then record r { width = 1; height = 1 } else r

abbrev pub op_for : Bool → Op
op_for true = union_op
op_for false = difference_op

abbrev pub or_client : HitTest → HitTest
or_client htnowhere = htclient
or_client htclient = htclient
or_client htcaption = htcaption
or_client (htborder n) = htborder n

abbrev pub is_nowhere : HitTest → Bool
is_nowhere htnowhere = true
is_nowhere other = false

module _ (regions : SkRegions) where
  abbrev pub add_region : DraggableRegion → regions.SkRegion → regions.SkRegion
  add_region region sofar =
      regions.op region.bounds.x region.bounds.y (right region.bounds) (bottom region.bounds)
        (op_for region.draggable) sofar

  abbrev pub add_regions : List DraggableRegion → regions.SkRegion → regions.SkRegion
  add_regions [] sofar = sofar
  add_regions (region ∷ rest) sofar = add_regions rest (add_region region sofar)

  -- draggable_region_ of a window with a frame, or without one, from what it was.
  unfoldable pub update_draggable_regions :
      Bool → List DraggableRegion → Option regions.SkRegion → Option regions.SkRegion
  update_draggable_regions has_frame new old =
      if has_frame then old else some (add_regions new regions.empty_region)

  abbrev pub region_contains : Option regions.SkRegion → ℤ → ℤ → Bool
  region_contains none x y = false
  region_contains (some region) x y = regions.contains region x y

  unfoldable pub non_client_hit_test : Frame → Option regions.SkRegion → ℤ → ℤ → HitTest
  non_client_hit_test frame region x y =
      if frame.is_fullscreen
      then htclient
      else if region_contains region x y
      then htcaption
      else or_client (resizing_border_hit_test frame x y)

  -- With has_frame_ and CanResize() of the window.
  unfoldable pub should_descend_into_child_for_event_handling :
      Bool → Bool → Frame → Option regions.SkRegion → ℤ → ℤ → Bool
  should_descend_into_child_for_event_handling has_frame can_resize frame region x y =
      if region_contains region x y
      then false
      else if not has_frame && can_resize
      then is_nowhere (resizing_border_hit_test frame x y)
      else true
