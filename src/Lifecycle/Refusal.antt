-- ===== src/Lifecycle/Refusal.antt =====
-- Who can stop a quit (Browser::Quit of atom/browser/browser.cc, CloseWebContents of
-- atom/browser/native_window.cc), and what follows one that nobody stops.
use mathlib.Core.Path.{subst}
use atom_shell.Common.{
  inl, inr, Bool-cases, ℕ, ◌≤◌, ◌<◌, ◌≡◌, ◌∙◌, Bool, true, false, not, ◌&&◌, ◌||◌, List, [], ◌∷◌,
  ◌++◌, arith, All,
}
use atom_shell.Lifecycle.State.{App, Answers}
use atom_shell.Lifecycle.Browser.{on_window_close_cancelled}
use atom_shell.Lifecycle.Closing.{close_web_contents, close_each, quit}
use atom_shell.Lifecycle.Events.{quits, step, run}
use atom_shell.Lifecycle.Quiet.{count, step-Quiet}
use atom_shell.Lifecycle.Invariant.{IsConsistent, IsConsistent-Quiet}
use atom_shell.Lifecycle.Quitting.{
  closing_log, final_log, deletions, IsDistinct, IsOpen, run-deletions,
}

abbrev pub any_of : (ℕ → Bool) → List ℕ → Bool
any_of p [] = false
any_of p (w ∷ ws) = p w || any_of p ws

close-is_quiting :
    (a : Answers) (w : ℕ) (app : App)
    → (close_web_contents a w app).is_quiting ≡ (app.is_quiting && not (a.prevent_close w))
unfolding close_web_contents on_window_close_cancelled
close-is_quiting a w app = ground arith

close_each-is_quiting :
    (a : Answers) (ws : List ℕ) (app : App)
    → (close_each a ws app).is_quiting ≡ (app.is_quiting && not (any_of a.prevent_close ws))
unfolding close_each
close_each-is_quiting a [] app = ground arith
close_each-is_quiting a (w ∷ ws) app =
    ground
      (arith, close-is_quiting a w app, close_each-is_quiting a ws (close_web_contents a w app))

-- With windows open, a quit is under way afterwards exactly if JavaScript prevents neither
-- "before-quit" nor the "close" of any window in the list.
pub quit-is_quiting :
    (a : Answers) (w : ℕ) (ws : List ℕ) (app : App)
    → app.windows ≡ w ∷ ws
    → (quit a app).is_quiting ≡ (not a.prevent_before_quit && not (any_of a.prevent_close (w ∷ ws)))
unfolding quit
quit-is_quiting a w ws app e = elim (Bool-cases a.prevent_before_quit) [
  | inl f ↦ simp f
  | inr f ↦ simp (f, e, close_each-is_quiting)
]

IsDistinct-of : (ws : List ℕ) → ((v : ℕ) → count v ws ≤ 1) → IsDistinct ws
IsDistinct-of [] h = tt
IsDistinct-of (w ∷ ws) h = (ground (arith, h w), IsDistinct-of ws (λ v. ground (arith, h v)))

All-counted : (P : ℕ → Type 0) (ws : List ℕ) → ((v : ℕ) → 0 < count v ws → P v) → All P ws
All-counted P [] h = tt
All-counted P (w ∷ ws) h = (h w (ground arith), All-counted P ws (λ v c. h v (ground arith)))

IsOpen-of : (app : App) → IsConsistent app → (v : ℕ) → 0 < count v app.windows → IsOpen app v
IsOpen-of app c v h = elim (Bool-cases (app.window v).is_closed) [
  | inl e ↦ absurd (omega (arith, c.closed_unlisted v e))
  | inr e ↦ e
]

-- A quit that nobody prevents, followed by the deletion of each window's widget, empties the list
-- and announces, after what the quit itself sent, each window's closing in order and then the
-- quit; unless "will-quit" is prevented, in which case the quit is over and the loop keeps running.
pub run-quits :
    (a : Answers) (w : ℕ) (ws : List ℕ) (app : App)
    → IsConsistent app
    → app.windows ≡ w ∷ ws
    → a.prevent_before_quit ≡ false
    → any_of a.prevent_close (w ∷ ws) ≡ false
    → let app' = run ((a, quits) ∷ deletions a (w ∷ ws)) app in
      (app'.windows ≡ [])
      × (app'.is_quiting ≡ not a.prevent_will_quit)
      × (app'.sent ≡ (quit a app).sent ++ (closing_log (w ∷ ws) ++ final_log a true))
unfolding run step
run-quits a w ws app c e f g =
    let quiet = step-Quiet a quits app tt in
    let c' = IsConsistent-Quiet quiet c in
    let e' : (quit a app).windows ≡ w ∷ ws = quiet.windows ∙ e in
    let going : (quit a app).is_quiting ≡ true = rw (quit-is_quiting a w ws app e, f, g) in
    let (listed, flag, told) =
      run-deletions a w ws (quit a app) e'
        (subst (λ l. IsDistinct l) e' (IsDistinct-of (quit a app).windows c'.listed_once))
        (subst (λ l. All (IsOpen (quit a app)) l) e'
          (All-counted (IsOpen (quit a app)) (quit a app).windows (IsOpen-of (quit a app) c'))) in
    (listed, flag ∙ simp going, told ∙ simp going)
