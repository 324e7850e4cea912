-- ===== src/Views/Taps.antt =====
-- The keys that toggle an auto-hide menu bar (HandleKeyboardEvent of atom/browser/native_window_views.cc).
use atom_shell.Common.{
  ℕ, zero, suc, ◌≡◌, refl, ap, ◌∙◌, Bool, true, false, not, ◌&&◌, Option, none, some, List, [], ◌∷◌,
  map, if◌then◌else◌, arith, All,
}
use mathlib.Core.Path.{subst}
use atom_shell.Views.MenuBar.{Labels, MenuBar, set_accelerator_visibility}
use atom_shell.Views.Window.{
  Frame, WindowViews, set_menu_bar_visibility, set_visibility_of, on_menu_bar, is_some, same_bool,
  Call,
}
use atom_shell.Views.Keys.{
  KeyEvent, KeyType, raw_key_down, key_up, other_type, key, is_raw_key_down, is_key_up, is_alt_key,
  no_modifiers, is_alt_and_key, toggle_by_alt, handle_menu_key, handle_keyboard_event, handle, run,
}

abbrev pub is_alt_press : KeyEvent → Bool
is_alt_press event = is_raw_key_down event.type && is_alt_key event

-- The release of an Alt key with no modifier left.
abbrev pub is_alt_release : KeyEvent → Bool
is_alt_release event = is_key_up event.type && is_alt_key event && no_modifiers event.modifiers

-- The releases of a single Alt that come right after its press.
abbrev pub taps : List KeyEvent → ℕ
taps [] = 0
taps (e ∷ []) = 0
taps (e ∷ f ∷ rest) =
    if is_alt_press e && is_alt_release f then suc (taps (f ∷ rest)) else taps (f ∷ rest)

abbrev pub flipped : ℕ → Bool → Bool
flipped zero b = b
flipped (suc n) b = not (flipped n b)

-- An auto-hide menu bar that exists, with what the window records of it.
pub record Shows (visible pressed : Bool) (w : WindowViews) : Type 0 where
  pub there : is_some w.menu_bar ≡ true
  pub hides : w.menu_bar_autohide ≡ true
  pub shown : w.menu_bar_visible ≡ visible
  pub alt : w.menu_bar_alt_pressed ≡ pressed

pub Shows-if :
    (v p b : Bool) (w u : WindowViews)
    → (b ≡ true → Shows v p w)
    → (b ≡ false → Shows v p u)
    → Shows v p (if b then w else u)
Shows-if v p true w u h k = h refl
Shows-if v p false w u h k = k refl

pub on_menu_bar-Shows :
    (v p : Bool) (f : MenuBar → MenuBar) (w : WindowViews)
    → Shows v p w
    → Shows v p (on_menu_bar f w)
on_menu_bar-Shows v p f w h = kept w.menu_bar
  where
    kept :
        (o : Option MenuBar)
        → Shows v p (elim o [ none ↦ w | some bar ↦ record w { menu_bar = some (f bar) } ])
    kept none = h
    kept (some bar) = record { there = refl; hides = h.hides; shown = h.shown; alt = h.alt }

set_menu_bar_visibility-Shows :
    (v p : Bool) (w : WindowViews)
    → Shows v p w
    → Shows (not v) p (set_menu_bar_visibility (not w.menu_bar_visible) w)
unfolding set_menu_bar_visibility
set_menu_bar_visibility-Shows v p w h = changed w.menu_bar h.there
  where
    other : (b : Bool) → same_bool b (not b) ≡ false
    other true = refl
    other false = refl

    changed :
        (o : Option MenuBar)
        → is_some o ≡ true
        → Shows (not v) p (set_visibility_of o (not w.menu_bar_visible) w)
    changed none e = ground (arith, e)
    changed (some bar) e =
        Shows-if (not v) p (same_bool w.menu_bar_visible (not w.menu_bar_visible)) _ _
          (λ same. ground (arith, same, other w.menu_bar_visible))
          (λ _. record { there = refl; hides = h.hides; shown = ap not h.shown; alt = h.alt })

toggled-Shows :
    (v press release pressed : Bool) (a b c : WindowViews)
    → (press ≡ true → release ≡ false)
    → Shows v true a
    → Shows (not v) false b
    → Shows v false c
    → Shows
        (if release && pressed then not v else v)
        press
        (if press then a else if release && pressed then b else c)
toggled-Shows v true true pressed a b c apart ha hb hc = ground (arith, apart refl)
toggled-Shows v true false pressed a b c apart ha hb hc = ha
toggled-Shows v false true true a b c apart ha hb hc = hb
toggled-Shows v false true false a b c apart ha hb hc = hc
toggled-Shows v false false pressed a b c apart ha hb hc = hc

press-release : (e : KeyEvent) → is_alt_press e ≡ true → is_alt_release e ≡ false
press-release e h = apart e.type (is_alt_key e) (no_modifiers e.modifiers) h
  where
    apart :
        (t : KeyType) (alt none_left : Bool)
        → (is_raw_key_down t && alt) ≡ true
        → (is_key_up t && alt && none_left) ≡ false
    apart raw_key_down alt none_left h = refl
    apart key_up alt none_left h = ground (arith, h)
    apart other_type alt none_left h = refl

toggle_by_alt-Shows :
    (v p : Bool) (e : KeyEvent) (w : WindowViews)
    → Shows v p w
    → Shows (if is_alt_release e && p then not v else v) (is_alt_press e) (toggle_by_alt e w)
unfolding toggle_by_alt
toggle_by_alt-Shows v p e w h =
    subst
      (λ pressed.
        Shows (if is_alt_release e && pressed then not v else v) (is_alt_press e)
          (toggle_by_alt e w))
      h.alt
      (toggled-Shows v (is_alt_press e) (is_alt_release e) w.menu_bar_alt_pressed _ _ _
        (press-release e) (record { there = h.there; hides = h.hides; shown = h.shown; alt = refl })
        (set_menu_bar_visibility-Shows v false (record w { menu_bar_alt_pressed = false })
          (record { there = h.there; hides = h.hides; shown = h.shown; alt = refl }))
        (record { there = h.there; hides = h.hides; shown = h.shown; alt = refl }))

pub handle_menu_key-Shows :
    (v p : Bool) (e : KeyEvent) (w : WindowViews)
    → is_alt_and_key e ≡ false
    → Shows v p w
    → Shows (if is_alt_release e && p then not v else v) (is_alt_press e) (handle_menu_key e w)
unfolding handle_menu_key
handle_menu_key-Shows v p e w single h =
    Shows-if _ _ (not (is_some w.menu_bar)) _ _ (λ absent. ground (arith, absent, h.there))
      (λ _.
        Shows-if _ _ (is_alt_and_key e) _ _ (λ combined. ground (arith, combined))
          (λ _.
            Shows-if _ _ (not w.menu_bar_autohide) _ _ (λ stays. ground (arith, stays, h.hides))
              (λ _. toggle_by_alt-Shows v p e _ marked)))
  where
    marked : Shows v p (
        if w.menu_bar_visible && is_alt_key e
        then on_menu_bar (set_accelerator_visibility (is_raw_key_down e.type)) w
        else w)
    marked =
        Shows-if v p (w.menu_bar_visible && is_alt_key e) _ w (λ _. on_menu_bar-Shows v p _ w h)
          (λ _. h)

module _ (frame : Frame) (labels : Labels) (unhandled : KeyEvent → List Call) where
  -- Not Alt with another key, and no command's key.
  abbrev pub IsPlain : KeyEvent → Type 0
  IsPlain e = (is_alt_and_key e ≡ false) × (unhandled e ≡ [])

  handle-Shows :
      (v p : Bool) (e : KeyEvent) (w : WindowViews)
      → IsPlain e
      → Shows v p w
      → Shows
          (if is_alt_release e && p then not v else v)
          (is_alt_press e)
          (handle frame labels unhandled (key e) w)
  unfolding handle handle_keyboard_event
  handle-Shows v p e w plain h = rw plain.1 (handle_menu_key-Shows v p e w plain.0 h)

  -- The visibility after keys that come when the last key was, or was not, a press of Alt.
  abbrev after : Bool → List KeyEvent → Bool → Bool
  after p [] v = v
  after p (e ∷ rest) v = after (is_alt_press e) rest (if is_alt_release e && p then not v else v)

  run-after :
      (ks : List KeyEvent) (v p : Bool) (w : WindowViews)
      → All IsPlain ks
      → Shows v p w
      → (run frame labels unhandled (map key ks) w).menu_bar_visible ≡ after p ks v
  unfolding run
  run-after [] v p w plain h = h.shown
  run-after (e ∷ rest) v p w plain h = run-after rest _ _ _ plain.1 (handle-Shows v p e w plain.0 h)

  flipped-not : (n : ℕ) (v : Bool) → flipped n (not v) ≡ not (flipped n v)
  flipped-not zero v = refl
  flipped-not (suc n) v = ap not (flipped-not n v)

  flipped-if :
      (release pressed : Bool) (n : ℕ) (v : Bool)
      → flipped n (if release && pressed then not v else v)
        ≡ flipped (if pressed && release then suc n else n) v
  flipped-if true true n v = flipped-not n v
  flipped-if true false n v = refl
  flipped-if false true n v = refl
  flipped-if false false n v = refl

  after-flipped :
      (e : KeyEvent) (ks : List KeyEvent) (v : Bool)
      → after (is_alt_press e) ks v ≡ flipped (taps (e ∷ ks)) v
  after-flipped e [] v = refl
  after-flipped e (f ∷ rest) v =
      after-flipped f rest (if is_alt_release f && is_alt_press e then not v else v)
      ∙ flipped-if (is_alt_release f) (is_alt_press e) (taps (f ∷ rest)) v

  after-taps : (ks : List KeyEvent) (v : Bool) → after false ks v ≡ flipped (taps ks) v
  after-taps [] v = refl
  after-taps (e ∷ ks) v =
      ap (after (is_alt_press e) ks) (flipped-if (is_alt_release e) false 0 v)
      ∙ after-flipped e ks v

-- When an auto-hide menu bar exists and no press of Alt is pending, then after every sequence of key events, none of
-- which presses another key with Alt alone or runs a command, the menu bar is visible exactly if it was before and
-- an even number of Alt releases, with no modifier left, came right after a press of Alt, or it was not and the
-- number is odd.
pub run-taps :
    (frame : Frame) (labels : Labels) (unhandled : KeyEvent → List Call) (ks : List KeyEvent)
    (visible : Bool) (w : WindowViews)
    → All (IsPlain frame labels unhandled) ks
    → Shows visible false w
    → (run frame labels unhandled (map key ks) w).menu_bar_visible ≡ flipped (taps ks) visible
run-taps frame labels unhandled ks visible w plain h =
    run-after frame labels unhandled ks visible false w plain h
    ∙ after-taps frame labels unhandled ks visible
