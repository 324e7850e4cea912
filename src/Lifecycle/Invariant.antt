-- ===== src/Lifecycle/Invariant.antt =====
-- The window list holds each open window once and no closed one, and each window's closing is
-- announced once (atom/browser/window_list.cc, atom/browser/native_window.cc).
use atom_shell.Common.{
  ◌≢◌, inl, inr, Bool-cases, ℕ, ◌≤◌, ◌≡◌, ◌==◌, true, not, List, [], ◌∷◌, if◌then◌else◌, keep_if,
  arith,
}
use atom_shell.Lifecycle.State.{App, Answers, window_closed, window_added, window_removed, send}
use atom_shell.Lifecycle.Browser.{remove_window, is_empty}
use atom_shell.Lifecycle.Closing.{create, notify_window_closed}
use atom_shell.Lifecycle.Events.{
  Event, created, closes, contents_closed, widget_deleted, unresponsive, responsive, timer_fired,
  before_unload, dialog_attached, quits, step, run,
}
use atom_shell.Lifecycle.Quiet.{
  count, closings, closings-append, count-append, count-remove, Quiet, Quiet-refl, Quiet-if,
  on_window_all_closed-Quiet, step-Quiet,
}

pub record IsConsistent (app : App) : Type 0 where
  pub listed_once : (w : ℕ) → count w app.windows ≤ 1
  pub closed_unlisted : (w : ℕ) → (app.window w).is_closed ≡ true → count w app.windows ≡ 0
  pub announced_once : (w : ℕ) → closings w app.sent ≡ (if (app.window w).is_closed then 1 else 0)

pub IsConsistent-Quiet : {app app' : App} → Quiet app app' → IsConsistent app → IsConsistent app'
IsConsistent-Quiet q c = record {
  listed_once = λ w. rw q.windows (c.listed_once w);
  closed_unlisted = λ w h. rw q.windows (c.closed_unlisted w (rw (q.closed w) at h));
  announced_once = λ w. rw (q.closings_kept w, q.closed w) (c.announced_once w);
}

-- A new window is a new object.
abbrev pub IsLegal : Event → App → Type 0
IsLegal (created w) app = (count w app.windows ≡ 0) × (closings w app.sent ≡ 0)
IsLegal e app = Unit

create-IsConsistent :
    (w : ℕ) (app : App) → IsLegal (created w) app → IsConsistent app → IsConsistent (create w app)
unfolding create
create-IsConsistent w app h c = record {
  listed_once = λ v. ground (arith, count-append v w app.windows, c.listed_once v);
  closed_unlisted = λ v. ground (arith, count-append v w app.windows, c.closed_unlisted v);
  announced_once =
      λ v. ground (arith, closings-append v (window_added w) app.sent, c.announced_once v);
}

remove_window-IsConsistent :
    (a : Answers) (w : ℕ) (app : App)
    → ((v : ℕ) → count v app.windows ≤ 1)
    → ((v : ℕ) → (app.window v).is_closed ≡ true → v ≢ w → count v app.windows ≡ 0)
    → ((v : ℕ) → closings v app.sent ≡ (if (app.window v).is_closed then 1 else 0))
    → IsConsistent (remove_window a w app)
unfolding remove_window
remove_window-IsConsistent a w app once gone told =
    let removed =
      send (window_removed w) (record app { windows = keep_if (λ v. not (v == w)) app.windows }) in
    IsConsistent-Quiet
      (Quiet-if (is_empty removed.windows) (on_window_all_closed-Quiet a removed)
        (Quiet-refl removed))
      (record {
        listed_once = λ v. ground (arith, count-remove v w app.windows, once v);
        closed_unlisted = λ v. ground (arith, count-remove v w app.windows, gone v);
        announced_once = λ v. ground (arith, closings-append v (window_removed w) app.sent, told v);
      })

notify-IsConsistent :
    (a : Answers) (w : ℕ) (app : App)
    → IsConsistent app
    → IsConsistent (notify_window_closed a w app)
unfolding notify_window_closed
notify-IsConsistent a w app c = elim (Bool-cases (app.window w).is_closed) [
  | inl e ↦ simp e c
  | inr e ↦ simp e (
      remove_window-IsConsistent a w _ c.listed_once (λ v. ground (arith, c.closed_unlisted v))
        (λ v. ground (arith, closings-append v (window_closed w) app.sent, c.announced_once v)))
]

-- Every event keeps the list and the announcements consistent, if new windows are new.
step-IsConsistent :
    (a : Answers) (e : Event) (app : App)
    → IsLegal e app
    → IsConsistent app
    → IsConsistent (step a e app)
unfolding step
step-IsConsistent a (created w) app h c = create-IsConsistent w app h c
step-IsConsistent a (widget_deleted w) app h c = notify-IsConsistent a w app c
step-IsConsistent a (closes w) app h c = IsConsistent-Quiet (step-Quiet a (closes w) app tt) c
step-IsConsistent a (contents_closed w) app h c =
    IsConsistent-Quiet (step-Quiet a (contents_closed w) app tt) c
step-IsConsistent a (unresponsive w) app h c =
    IsConsistent-Quiet (step-Quiet a (unresponsive w) app tt) c
step-IsConsistent a (responsive w) app h c =
    IsConsistent-Quiet (step-Quiet a (responsive w) app tt) c
step-IsConsistent a (timer_fired w) app h c =
    IsConsistent-Quiet (step-Quiet a (timer_fired w) app tt) c
step-IsConsistent a (before_unload w b) app h c =
    IsConsistent-Quiet (step-Quiet a (before_unload w b) app tt) c
step-IsConsistent a (dialog_attached w b) app h c =
    IsConsistent-Quiet (step-Quiet a (dialog_attached w b) app tt) c
step-IsConsistent a quits app h c = IsConsistent-Quiet (step-Quiet a quits app tt) c

abbrev pub AllLegal : List (Answers × Event) → App → Type 0
AllLegal [] app = Unit
AllLegal ((a, e) ∷ es) app = IsLegal e app × AllLegal es (step a e app)

-- After any sequence of events, whatever JavaScript answers, the window list holds each window at
-- most once and no closed one, and OnWindowClosed has been announced once for each closed window
-- and never for an open one, provided that each window created is a new object.
pub run-IsConsistent :
    (es : List (Answers × Event)) (app : App)
    → AllLegal es app
    → IsConsistent app
    → IsConsistent (run es app)
unfolding run
run-IsConsistent [] app h c = c
run-IsConsistent ((a, e) ∷ es) app (h, hs) c =
    run-IsConsistent es (step a e app) hs (step-IsConsistent a e app h c)
