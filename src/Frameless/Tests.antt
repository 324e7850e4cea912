-- ===== src/Frameless/Tests.antt =====
-- Regions as functions of a point, and a page with a draggable bar that has a button in it.
use atom_shell.Common.{ℕ, ◌≡◌, refl, Bool, true, false, ◌||◌, none, List, [], ◌∷◌, if◌then◌else◌}
use atom_shell.Common.Int.{ℤ, pos, ltb_ℤ}
use atom_shell.Frameless.Hits.{
  WebDraggableRegion, draggable_regions_changed, SkRegions, htnowhere, htclient, htcaption,
  htborder, Frame, resizing_border_hit_test, or_client, non_client_hit_test,
  update_draggable_regions, should_descend_into_child_for_event_handling,
  get_window_bounds_for_client_bounds,
}
use atom_shell.Frameless.Regions.{
  lies_in, combine, IsRegionAlgebra, last_says, is_client, non_client_hit_test-last_says,
  non_client_hit_test-should_descend,
}

abbrev regions : SkRegions
regions = record {
  SkRegion = ℤ → ℤ → Bool;
  empty_region = λ x y. false;
  op = λ left top right_end bottom_end op region x y.
      combine op (lies_in left top right_end bottom_end x y) (region x y);
  contains = λ region x y. region x y;
}

algebra : IsRegionAlgebra regions
algebra = (λ x y. refl, λ left top right_end bottom_end op region x y. refl)

abbrev frame : Frame
frame = record {
  has_delegate = true;
  can_resize = true;
  is_maximized = false;
  is_fullscreen = false;
  get_ht_component_for_frame =
      λ x y thickness corner resizable. if ltb_ℤ x (pos thickness) then htborder 10 else htnowhere;
}

abbrev region : ℕ → ℕ → Bool → WebDraggableRegion
region x width draggable = record {
  bounds = record { x = pos x; y = pos 0; width = width; height = 20 };
  draggable = draggable;
}

abbrev page : List WebDraggableRegion
page = region 0 100 true ∷ region 40 10 false ∷ []

last_says-bar : last_says (pos 10) (pos 5) page false ≡ true
last_says-bar = refl

last_says-button : last_says (pos 45) (pos 5) page false ≡ false
last_says-button = refl

get_window_bounds_for_client_bounds-flat :
    (get_window_bounds_for_client_bounds
      (record { x = pos 0; y = pos 0; width = 500; height = 0 })).width
    ≡ 1
unfolding get_window_bounds_for_client_bounds
get_window_bounds_for_client_bounds-flat = refl

non_client_hit_test-last_says_example :
    non_client_hit_test regions frame
      (update_draggable_regions regions false (draggable_regions_changed page) none)
      (pos 10)
      (pos 5)
    ≡ (if frame.is_fullscreen
        then htclient
        else if last_says (pos 10) (pos 5) page false
        then htcaption
        else or_client (resizing_border_hit_test frame (pos 10) (pos 5)))
non_client_hit_test-last_says_example =
    non_client_hit_test-last_says regions algebra frame none page (pos 10) (pos 5)

never_client :
    (thickness corner : ℕ) (resizable : Bool)
    → is_client (frame.get_ht_component_for_frame (pos 2) (pos 50) thickness corner resizable)
      ≡ false
never_client thickness corner resizable = split (ltb_ℤ (pos 2) (pos thickness))
  where
    split : (b : Bool) → is_client (if b then htborder 10 else htnowhere) ≡ false
    split true = refl
    split false = refl

non_client_hit_test-should_descend_example :
    is_client (non_client_hit_test regions frame none (pos 2) (pos 50)) ≡ (
      frame.is_fullscreen
      || should_descend_into_child_for_event_handling regions false true frame none
          (pos 2)
          (pos 50))
non_client_hit_test-should_descend_example =
    non_client_hit_test-should_descend regions frame none (pos 2) (pos 50) never_client
