-- ===== src/Lifecycle/Quitting.antt =====
-- What a quit comes to (Browser::Quit, Browser::NotifyAndShutdown and WindowList::RemoveWindow of
-- atom/browser/browser.cc and atom/browser/window_list.cc).
use mathlib.Core.List.{append_assoc}
use atom_shell.Common.{
  inl, inr, Bool-cases, ℕ, ◌≡◌, refl, ◌∙◌, ◌==◌, Bool, true, false, not, ◌&&◌, List, [], ◌∷◌, ◌++◌,
  if◌then◌else◌, keep_if, arith, All,
}
use atom_shell.Lifecycle.State.{
  App, Answers, Message, window_closed, window_removed, will_quit, quit_event, quit_message_loop,
  window_all_closed,
}
use atom_shell.Lifecycle.Browser.{is_empty, on_window_all_closed}
use atom_shell.Lifecycle.Closing.{notify_window_closed}
use atom_shell.Lifecycle.Events.{Event, widget_deleted, step, run}
use atom_shell.Lifecycle.Quiet.{count}

-- The messages of the windows' closing, in order.
abbrev pub closing_log : List ℕ → List Message
closing_log [] = []
closing_log (w ∷ ws) = window_closed w ∷ window_removed w ∷ closing_log ws

-- What follows the closing of the last window.
abbrev pub final_log : Answers → Bool → List Message
final_log a false = window_all_closed ∷ []
final_log a true =
    if a.prevent_will_quit then will_quit ∷ [] else will_quit ∷ quit_event ∷ quit_message_loop ∷ []

abbrev pub deletions : Answers → List ℕ → List (Answers × Event)
deletions a [] = []
deletions a (w ∷ ws) = (a, widget_deleted w) ∷ deletions a ws

abbrev pub IsDistinct : List ℕ → Type 0
IsDistinct [] = Unit
IsDistinct (w ∷ ws) = (count w ws ≡ 0) × IsDistinct ws

abbrev pub IsOpen : App → ℕ → Type 0
IsOpen app w = (app.window w).is_closed ≡ false

keep_if_absent : (w : ℕ) (ws : List ℕ) → count w ws ≡ 0 → keep_if (λ v. not (v == w)) ws ≡ ws
keep_if_absent w [] h = refl
keep_if_absent w (v ∷ ws) h = ground (arith, keep_if_absent w ws)

-- The state after the widget of an open window is deleted, before the observers hear of the last.
abbrev without : ℕ → List ℕ → App → App
without w ws app = record app {
  windows = ws;
  window = λ v. if v == w then record (app.window w) { is_closed = true } else app.window v;
  sent = (app.sent ++ window_closed w ∷ []) ++ window_removed w ∷ [];
}

notify_lem :
    (a : Answers) (w : ℕ) (ws : List ℕ) (app : App)
    → app.windows ≡ w ∷ ws
    → count w ws ≡ 0
    → IsOpen app w
    → notify_window_closed a w app
      ≡ (if is_empty ws then on_window_all_closed a (without w ws app) else without w ws app)
unfolding notify_window_closed
notify_lem a w ws app e fresh o = simp o (rw kept)
  where
    kept : keep_if (λ v. not (v == w)) app.windows ≡ ws
    kept = rw e (ground (arith, keep_if_absent w ws fresh))

without-IsOpen :
    (w v : ℕ) (ws vs : List ℕ) (app : App)
    → count w vs ≡ 0
    → All (IsOpen app) vs
    → All (IsOpen (without w ws app)) vs
without-IsOpen w v ws [] app fresh h = tt
without-IsOpen w v ws (u ∷ vs) app fresh h =
    (ground arith, without-IsOpen w v ws vs app (ground arith) h.1)

on_window_all_closed_lem :
    (a : Answers) (app : App)
    → ((on_window_all_closed a app).windows ≡ app.windows)
      × ((on_window_all_closed a app).is_quiting ≡ (app.is_quiting && not a.prevent_will_quit))
      × ((on_window_all_closed a app).sent ≡ app.sent ++ final_log a app.is_quiting)
unfolding on_window_all_closed
on_window_all_closed_lem a app = elim (Bool-cases app.is_quiting) [
  | inr e ↦ (simp e, simp e, simp e)
  | inl e ↦ elim (Bool-cases a.prevent_will_quit) [
    | inl f ↦ (simp (e, f), simp (e, f), simp (e, f))
    | inr f ↦ (simp (e, f), simp (e, f), simp (e, f, append_assoc))
  ]
]

-- Once every window's widget has been deleted, in the order of the list: the windows are announced
-- as closed one by one, and only after the last one comes either the quit, where one is under way
-- (and it stops there if JavaScript prevents it), or the notice that all windows are closed.
pub run-deletions :
    (a : Answers) (w : ℕ) (ws : List ℕ) (app : App)
    → app.windows ≡ w ∷ ws
    → IsDistinct (w ∷ ws)
    → All (IsOpen app) (w ∷ ws)
    → let app' = run (deletions a (w ∷ ws)) app in
      (app'.windows ≡ [])
      × (app'.is_quiting ≡ (app.is_quiting && not a.prevent_will_quit))
      × (app'.sent ≡ app.sent ++ (closing_log (w ∷ ws) ++ final_log a app.is_quiting))
unfolding run step
run-deletions a w [] app e d o =
    let last = without w [] app in
    let (listed, flag, told) = on_window_all_closed_lem a last in
    rw (notify_lem a w [] app e d.0 o.0) (listed, flag, told ∙ simp append_assoc)
run-deletions a w (v ∷ ws) app e d o =
    let (listed, flag, told) =
      run-deletions a v ws (without w (v ∷ ws) app) refl d.1
        (without-IsOpen w v (v ∷ ws) (v ∷ ws) app d.0 o.1) in
    rw (notify_lem a w (v ∷ ws) app e d.0 o.0, run) (listed, flag, told ∙ simp append_assoc)
