-- ===== src/Lifecycle/Tests.antt =====
-- Runs of the lifecycle modules at concrete windows.
use atom_shell.Common.{◌≡◌, refl, true, false, none, [], ◌∷◌, ◌++◌, arith, ◌==◌}
use atom_shell.Lifecycle.State.{App, Answers, Window}
use atom_shell.Lifecycle.Closing.{quit}
use atom_shell.Lifecycle.Events.{created, closes, widget_deleted, quits, run}
use atom_shell.Lifecycle.Invariant.{IsConsistent, run-IsConsistent}
use atom_shell.Lifecycle.Quitting.{closing_log, final_log, deletions}
use atom_shell.Lifecycle.Refusal.{quit-is_quiting, run-quits}
use atom_shell.Lifecycle.Fullscreen.{Screen}

abbrev never : Answers
never = record {
  prevent_before_quit = false;
  prevent_will_quit = false;
  prevent_close = λ w. false;
  has_before_unload = λ w. true;
}

-- JavaScript keeps window 2 open.
abbrev stubborn : Answers
stubborn = record never { prevent_close = λ w. w == 2 }

abbrev opened : Window
opened = record {
  is_closed = false;
  has_contents = true;
  has_dialog_attached = false;
  unresponsive_after = none;
}

abbrev start : App
start = record {
  windows = [];
  window = λ w. opened;
  is_quiting = false;
  is_ready = true;
  sent = [];
}

abbrev two_windows : App
two_windows = record start { windows = 1 ∷ 2 ∷ [] }

start-IsConsistent : IsConsistent start
start-IsConsistent = record {
  listed_once = λ w. omega arith;
  closed_unlisted = λ w h. refl;
  announced_once = λ w. refl;
}

two_windows-IsConsistent : IsConsistent two_windows
two_windows-IsConsistent = record {
  listed_once = λ w. ground arith;
  closed_unlisted = λ w h. cc;
  announced_once = λ w. refl;
}

run-IsConsistent_example :
    IsConsistent
      (run ((never, created 1) ∷ (never, closes 1) ∷ (never, widget_deleted 1) ∷ []) start)
run-IsConsistent_example =
    run-IsConsistent ((never, created 1) ∷ (never, closes 1) ∷ (never, widget_deleted 1) ∷ []) start
      ((refl, refl), (tt, (tt, tt))) start-IsConsistent

quit-is_quiting_example : (quit stubborn two_windows).is_quiting ≡ false
quit-is_quiting_example = quit-is_quiting stubborn 1 (2 ∷ []) two_windows refl

run-quits_example :
    let app' = run ((never, quits) ∷ deletions never (1 ∷ 2 ∷ [])) two_windows in
    (app'.windows ≡ [])
    × (app'.is_quiting ≡ true)
    × (app'.sent
        ≡ (quit never two_windows).sent ++ (closing_log (1 ∷ 2 ∷ []) ++ final_log never true))
run-quits_example = run-quits never 1 (2 ∷ []) two_windows two_windows-IsConsistent refl refl refl

abbrev windowed : Screen
windowed = record { is_fullscreen = false; html_fullscreen = false; native_fullscreen = false }
