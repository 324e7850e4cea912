-- ===== src/Tray/Tests.antt =====
-- A taskbar that explorer runs or not, and icons of which one is deleted.
use atom_shell.Common.{
  ℕ, ◌≡◌, refl, ap, Bool, true, false, ◌&&◌, Option, none, some, List, [], ◌∷◌, ◌==◌, if◌then◌else◌,
  arith,
}
use atom_shell.Tray.Icons.{
  Shell, NotifyIconHost, find_icon, create_notify_icon, set_image, set_tool_tip, delete_icon,
  on_taskbar_created, on_notify_icon_message, right_button_down, menu_run, no_response,
}
use atom_shell.Tray.Showing.{
  IsShell, Step, icon_created, image_set, tool_tip_set, icon_deleted, step, run, at_first,
  recreated,
}
use atom_shell.Tray.Finding.{icon_of}
use atom_shell.Tray.Recreating.{run-Shows}

-- Whether explorer is running, and the images.
abbrev Bar : Type 0
Bar = Bool × (ℕ → Option (Option ℕ))

abbrev is_there : Option (Option ℕ) → Bool
is_there none = false
is_there (some image) = true

abbrev put : ℕ → Option (Option ℕ) → (ℕ → Option (Option ℕ)) → ℕ → Option (Option ℕ)
put id image t j = if id == j then image else t j

-- A call, and whether it succeeds.
abbrev attempt : Bool → ℕ → Option (Option ℕ) → Bar → Bool × Bar
attempt is_done id image bar = (is_done, (bar.0, if is_done then put id image bar.1 else bar.1))

abbrev is_absent : ℕ → Bar → Bool
is_absent id bar = if is_there (bar.1 id) then false else bar.0

abbrev is_present : ℕ → Bar → Bool
is_present id bar = bar.0 && is_there (bar.1 id)

abbrev shell : Shell
shell = record {
  Taskbar = Bar;
  nim_add = λ id image bar. attempt (is_absent id bar) id (some image) bar;
  nim_modify_icon = λ id image bar. attempt (is_present id bar) id (some image) bar;
  nim_modify_tip = λ id tip bar. (is_present id bar, bar);
  nim_delete = λ id bar. attempt (is_present id bar) id none bar;
  image_at = λ bar j. bar.1 j;
}

attempt-here :
    (is_done : Bool) (id : ℕ) (image : Option (Option ℕ)) (bar : Bar)
    → is_done ≡ true
    → (attempt is_done id image bar).1.1 id ≡ image
attempt-here true id image bar e = ap (λ b. if b then image else bar.1 id) (same id)
  where
    same : (a : ℕ) → (a == a) ≡ true
    same a = ground arith
attempt-here false id image bar e = absurd (ground (arith, e))

attempt-apart :
    (is_done : Bool) (id : ℕ) (image : Option (Option ℕ)) (bar : Bar) (j : ℕ)
    → (id == j) ≡ false
    → (attempt is_done id image bar).1.1 j ≡ bar.1 j
attempt-apart true id image bar j e = ap (λ b. if b then image else bar.1 j) e
attempt-apart false id image bar j e = refl

promises : IsShell shell
promises = (
  λ id image bar. attempt-here (is_absent id bar) id (some image) bar,
  λ id image bar. attempt-here (is_present id bar) id (some image) bar,
  λ id image bar j e. (
    attempt-apart (is_absent id bar) id (some image) bar j e,
    attempt-apart (is_present id bar) id (some image) bar j e,
    attempt-apart (is_present id bar) id none bar j e,
  ),
  λ id tip bar j. refl,
)

-- Explorer is not running when the first icon is made and gets its image: two warnings.
abbrev before : List (Step shell)
before = icon_created ∷ image_set 3 (some 7) ∷ []

abbrev after : List (Step shell)
after = icon_created ∷ tool_tip_set 3 "atom" ∷ icon_deleted 4 ∷ []

abbrev stopped : Bar
stopped = (false, λ j. none)

abbrev running : Bar
running = (true, λ j. none)

warnings-before : (run shell before (at_first shell stopped)).warnings ≡ 2
unfolding run step create_notify_icon set_image
warnings-before = refl

warnings-after :
    (recreated shell before after stopped running).warnings
    ≡ (run shell before (at_first shell stopped)).warnings
unfolding run step create_notify_icon set_image set_tool_tip delete_icon on_taskbar_created
warnings-after = refl

found :
    icon_of (find_icon 3 (recreated shell before after stopped running).host.notify_icons)
    ≡ some (some 7)
unfolding run step create_notify_icon set_image set_tool_tip delete_icon on_taskbar_created
found = refl

abbrev host : NotifyIconHost
host = record {
  next_icon_id = 2;
  notify_icons = record { icon_id = 3; icon = none; menu_model = some 5 } ∷ [];
}

on_notify_icon_message-menu : on_notify_icon_message true host 3 right_button_down ≡ menu_run 5
unfolding on_notify_icon_message
on_notify_icon_message-menu = refl

on_notify_icon_message-obsolete : on_notify_icon_message true host 4 right_button_down ≡ no_response
unfolding on_notify_icon_message
on_notify_icon_message-obsolete = refl

run-Shows_example :
    shell.image_at (recreated shell before after stopped running).taskbar 3 ≡ some (some 7)
run-Shows_example =
    run-Shows shell promises before after stopped running 3 (some 7) (omega arith) warnings-after
      found
