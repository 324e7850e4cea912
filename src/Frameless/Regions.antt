-- ===== src/Frameless/Regions.antt =====
-- Where a frameless window can be dragged, and which events its frame takes from the page
-- (atom/browser/native_window_views.cc and atom/browser/ui/views/frameless_view.cc).
use atom_shell.Common.{
  ℕ, ◌≡◌, refl, ap, ◌∙◌, Bool, true, false, not, ◌&&◌, ◌||◌, Option, List, [], ◌∷◌, if◌then◌else◌,
  arith,
}
use atom_shell.Common.Int.{ℤ, ltb_ℤ}
use atom_shell.Frameless.Hits.{
  right, bottom, WebDraggableRegion, draggable_regions_changed, Op, union_op, difference_op,
  SkRegions, HitTest, htnowhere, htclient, htcaption, htborder, Frame, resizing_border_hit_test,
  op_for, add_region, add_regions, update_draggable_regions, region_contains, or_client,
  resize_inside_bounds_size, resize_area_corner_size, non_client_hit_test, is_nowhere,
  should_descend_into_child_for_event_handling,
}

-- What SkRegion promises of its points.
abbrev pub lies_in : ℤ → ℤ → ℤ → ℤ → ℤ → ℤ → Bool
lies_in left top right_end bottom_end x y =
    (not (ltb_ℤ x left) && ltb_ℤ x right_end) && (not (ltb_ℤ y top) && ltb_ℤ y bottom_end)

abbrev pub combine : Op → Bool → Bool → Bool
combine union_op inside before = if inside then true else before
combine difference_op inside before = if inside then false else before

abbrev pub IsRegionAlgebra : SkRegions → Type 0
IsRegionAlgebra regions =
    ((x y : ℤ) → regions.contains regions.empty_region x y ≡ false)
    × ((left top right_end bottom_end : ℤ) (op : Op) (region : regions.SkRegion) (x y : ℤ)
        → regions.contains (regions.op left top right_end bottom_end op region) x y
          ≡ combine op (lies_in left top right_end bottom_end x y) (regions.contains region x y))

-- Whether the last region of a page that a point lies in is draggable, or else the given answer.
abbrev pub last_says : ℤ → ℤ → List WebDraggableRegion → Bool → Bool
last_says x y [] before = before
last_says x y (region ∷ rest) before = last_says x y rest (
    if lies_in region.bounds.x region.bounds.y (right region.bounds) (bottom region.bounds) x y
    then region.draggable
    else before)

combine-op_for :
    (draggable inside before : Bool)
    → combine (op_for draggable) inside before ≡ (if inside then draggable else before)
combine-op_for true inside before = refl
combine-op_for false inside before = refl

module _ (regions : SkRegions) (algebra : IsRegionAlgebra regions) where
  add_regions-last_says :
      (x y : ℤ) (page : List WebDraggableRegion) (sofar : regions.SkRegion) (before : Bool)
      → regions.contains sofar x y ≡ before
      → regions.contains (add_regions regions (draggable_regions_changed page) sofar) x y
        ≡ last_says x y page before
  add_regions-last_says x y [] sofar before e = e
  add_regions-last_says x y (region ∷ rest) sofar before e =
      add_regions-last_says x y rest
        (add_region regions (record { bounds = region.bounds; draggable = region.draggable }) sofar)
        (if inside then region.draggable else before)
        (algebra.1 region.bounds.x region.bounds.y (right region.bounds) (bottom region.bounds)
            (op_for region.draggable) sofar x y
          ∙ combine-op_for region.draggable inside (regions.contains sofar x y)
          ∙ ap (λ b. if inside then region.draggable else b) e)
    where
      inside : Bool
      inside =
          lies_in region.bounds.x region.bounds.y (right region.bounds) (bottom region.bounds) x y

  -- With a region library that keeps its promises, a window without a frame, whose page has sent its regions, is dragged
  -- at a point exactly when it is not in fullscreen and the last region of the page that the point lies in is
  -- draggable. In fullscreen the point belongs to the page, and elsewhere to the border or else to the page.
  pub non_client_hit_test-last_says :
      (frame : Frame) (old : Option regions.SkRegion) (page : List WebDraggableRegion) (x y : ℤ)
      → non_client_hit_test regions frame
          (update_draggable_regions regions false (draggable_regions_changed page) old)
          x
          y
        ≡ (if frame.is_fullscreen
            then htclient
            else if last_says x y page false
            then htcaption
            else or_client (resizing_border_hit_test frame x y))
  unfolding non_client_hit_test update_draggable_regions
  non_client_hit_test-last_says frame old page x y =
      ap
        (λ b.
          if frame.is_fullscreen
          then htclient
          else if b
          then htcaption
          else or_client (resizing_border_hit_test frame x y))
        (add_regions-last_says x y page regions.empty_region false (algebra.0 x y))

abbrev pub is_client : HitTest → Bool
is_client htnowhere = false
is_client htclient = true
is_client htcaption = false
is_client (htborder n) = false

-- In a window without a frame that can be resized, where the border is never said to be the page's, a point belongs to
-- the page exactly when the window is in fullscreen or the page gets the events at the point.
pub non_client_hit_test-should_descend :
    (regions : SkRegions) (frame : Frame) (region : Option regions.SkRegion) (x y : ℤ)
    → ((thickness corner : ℕ) (resizable : Bool)
        → is_client (frame.get_ht_component_for_frame x y thickness corner resizable) ≡ false)
    → is_client (non_client_hit_test regions frame region x y) ≡ (
        frame.is_fullscreen
        || should_descend_into_child_for_event_handling regions false true frame region x y)
unfolding non_client_hit_test should_descend_into_child_for_event_handling resizing_border_hit_test
non_client_hit_test-should_descend regions frame region x y h =
    cases frame.is_fullscreen (region_contains regions region x y)
      (frame.get_ht_component_for_frame x y
        (if frame.is_maximized || frame.is_fullscreen then 0 else resize_inside_bounds_size)
        resize_area_corner_size (if frame.has_delegate then frame.can_resize else false))
      (h _ _ _)
  where
    cases :
        (fullscreen inside : Bool) (border : HitTest)
        → is_client border ≡ false
        → is_client
            (if fullscreen then htclient else if inside then htcaption else or_client border)
          ≡ (fullscreen || (if inside then false else is_nowhere border))
    cases true inside border e = refl
    cases false true border e = refl
    cases false false htnowhere e = refl
    cases false false htclient e = ground (arith, e)
    cases false false htcaption e = refl
    cases false false (htborder n) e = refl
