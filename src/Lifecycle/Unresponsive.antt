-- ===== src/Lifecycle/Unresponsive.antt =====
-- When a window is reported as unresponsive (atom/browser/native_window.cc).
use atom_shell.Common.{
  ℕ, ◌+◌, ◌≡◌, refl, ◌==◌, Bool, true, false, not, ◌&&◌, List, [], ◌∷◌, ◌++◌, if◌then◌else◌, arith,
  zero, suc, Option, none, some,
}
use atom_shell.Lifecycle.State.{App, Answers, Window, Message, renderer_unresponsive}
use atom_shell.Lifecycle.Closing.{close_contents, fire}
use atom_shell.Lifecycle.Events.{contents_closed, unresponsive, closes, timer_fired, step}

-- The reports of a window in a list of messages.
abbrev pub reports_window : ℕ → Message → Bool
reports_window w (renderer_unresponsive v) = v == w
reports_window w _ = false

abbrev pub reports : ℕ → List Message → ℕ
reports w [] = 0
reports w (m ∷ ms) = if reports_window w m then reports w ms + 1 else reports w ms

reports-append :
    (w : ℕ) (m : Message) (ms : List Message)
    → reports w (ms ++ m ∷ []) ≡ (if reports_window w m then reports w ms + 1 else reports w ms)
reports-append w m [] = refl
reports-append w m (n ∷ ms) = ground (arith, reports-append w m ms)

abbrev pub is_scheduled : Window → Bool
is_scheduled o = elim o.unresponsive_after [ none ↦ false | some ms ↦ true ]

fire-reports :
    (t : Option ℕ) (w v : ℕ) (app : App)
    → (app.window w).unresponsive_after ≡ t
    → reports v (fire t w app).sent ≡ (
        if v == w
          && (is_scheduled (app.window w)
              && (not (app.window w).is_closed && not (app.window w).has_dialog_attached))
        then reports v app.sent + 1
        else reports v app.sent)
unfolding fire
fire-reports none w v app e = ground arith
fire-reports (some ms) w v app e =
    ground (arith, reports-append v (renderer_unresponsive w) app.sent)

-- When the delayed task of a window runs, it reports that window and no other as unresponsive, and
-- does so exactly if the report was not cancelled, the window is not closed and no dialog is
-- attached to it.
pub timer_fired-reports :
    (a : Answers) (w v : ℕ) (app : App)
    → reports v (step a (timer_fired w) app).sent ≡ (
        if v == w
          && (is_scheduled (app.window w)
              && (not (app.window w).is_closed && not (app.window w).has_dialog_attached))
        then reports v app.sent + 1
        else reports v app.sent)
unfolding step
timer_fired-reports a w v app = fire-reports (app.window w).unresponsive_after w v app refl

-- `n` reports of the content layer that the page hangs.
abbrev pub hangs : ℕ → Answers → ℕ → App → App
hangs zero a w app = app
hangs (suc n) a w app = hangs n a w (step a (unresponsive w) app)

hangs-scheduled :
    (n : ℕ) (a : Answers) (w ms : ℕ) (app : App)
    → (app.window w).unresponsive_after ≡ some ms
    → ((hangs n a w app).window w).unresponsive_after ≡ some ms
unfolding step
hangs-scheduled zero a w ms app h = h
hangs-scheduled (suc n) a w ms app h =
    hangs-scheduled n a w ms (step a (unresponsive w) app) (ground arith)

-- While a window with contents closes, the five seconds that were scheduled stand: however often
-- the content layer reports a hang, the report is not moved ahead.
pub hangs-closes :
    (n : ℕ) (a : Answers) (w : ℕ) (app : App)
    → a.prevent_close w ≡ false
    → (app.window w).has_contents ≡ true
    → (app.window w).unresponsive_after ≡ none
    → ((hangs n a w (step a (closes w) app)).window w).unresponsive_after ≡ some 5000
unfolding step
hangs-closes n a w app e f g = hangs-scheduled n a w 5000 (step a (closes w) app) (ground arith)

-- Once the contents are gone, a delayed task that is still to run changes nothing.
pub timer_fired-contents_closed :
    (a : Answers) (w : ℕ) (app : App)
    → step a (timer_fired w) (step a (contents_closed w) app) ≡ step a (contents_closed w) app
unfolding step
timer_fired-contents_closed a w app = rw cancelled
  where
    cancelled : ((close_contents w app).window w).unresponsive_after ≡ none
    cancelled = ground arith
