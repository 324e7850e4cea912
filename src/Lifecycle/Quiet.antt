-- ===== src/Lifecycle/Quiet.antt =====
-- Which operations of atom/browser/browser.cc and atom/browser/native_window.cc leave the open
-- windows alone.
use atom_shell.Common.{
  ℕ, ◌+◌, ◌≡◌, refl, ◌∙◌, ◌==◌, Bool, true, false, not, List, [], ◌∷◌, ◌++◌, if◌then◌else◌, keep_if,
  arith, ◌&&◌, Option, some, none,
}
use atom_shell.Lifecycle.State.{
  App, Answers, Window, Message, window_closed, send, set_window, window_close_cancelled, will_quit,
  quit_event, quit_message_loop, window_all_closed, close_immediately, dispatch_before_unload,
  web_contents_close, renderer_unresponsive, renderer_responsive, before_quit,
}
use atom_shell.Lifecycle.Browser.{
  on_window_all_closed, notify_and_shutdown, window_close_was_cancelled, is_empty,
}
use atom_shell.Lifecycle.Closing.{
  close_web_contents, before_unload_fired, quit, close_all_windows, fire, close_each,
  schedule_unresponsive_event,
}
use atom_shell.Lifecycle.Events.{
  Event, created, closes, contents_closed, widget_deleted, unresponsive, responsive, timer_fired,
  before_unload, dialog_attached, quits, step,
}

-- How often a number stands in a list.
abbrev pub count : ℕ → List ℕ → ℕ
count w [] = 0
count w (v ∷ vs) = if v == w then count w vs + 1 else count w vs

abbrev pub closes_window : ℕ → Message → Bool
closes_window w (window_closed v) = v == w
closes_window w _ = false

-- How often OnWindowClosed of a window has been announced.
abbrev pub closings : ℕ → List Message → ℕ
closings w [] = 0
closings w (m ∷ ms) = if closes_window w m then closings w ms + 1 else closings w ms

pub closings-append :
    (w : ℕ) (m : Message) (ms : List Message)
    → closings w (ms ++ m ∷ []) ≡ (if closes_window w m then closings w ms + 1 else closings w ms)
closings-append w m [] = refl
closings-append w m (n ∷ ms) = ground (arith, closings-append w m ms)

pub count-append :
    (w v : ℕ) (ws : List ℕ)
    → count w (ws ++ v ∷ []) ≡ (if v == w then count w ws + 1 else count w ws)
count-append w v [] = refl
count-append w v (u ∷ ws) = ground (arith, count-append w v ws)

pub count-remove :
    (w v : ℕ) (ws : List ℕ)
    → count w (keep_if (λ u. not (u == v)) ws) ≡ (if v == w then 0 else count w ws)
count-remove w v [] = ground arith
count-remove w v (u ∷ ws) = ground (arith, count-remove w v ws)

-- Nothing is opened, closed or announced as closed.
pub record Quiet (app app' : App) : Type 0 where
  pub windows : app'.windows ≡ app.windows
  pub closed : (v : ℕ) → (app'.window v).is_closed ≡ (app.window v).is_closed
  pub closings_kept : (v : ℕ) → closings v app'.sent ≡ closings v app.sent

pub Quiet-refl : (app : App) → Quiet app app
Quiet-refl app = record { windows = refl; closed = λ v. refl; closings_kept = λ v. refl }

pub Quiet-trans : {app app' app'' : App} → Quiet app app' → Quiet app' app'' → Quiet app app''
Quiet-trans p q = record {
  windows = q.windows ∙ p.windows;
  closed = λ v. q.closed v ∙ p.closed v;
  closings_kept = λ v. q.closings_kept v ∙ p.closings_kept v;
}

pub Quiet-send :
    (m : Message) (app : App) → ((v : ℕ) → closes_window v m ≡ false) → Quiet app (send m app)
unfolding send
Quiet-send m app h = record {
  windows = refl;
  closed = λ v. refl;
  closings_kept = λ v. rw (closings-append v m app.sent, h v);
}

pub Quiet-set_window :
    (w : ℕ) (o : Window) (app : App)
    → o.is_closed ≡ (app.window w).is_closed
    → Quiet app (set_window w o app)
unfolding set_window
Quiet-set_window w o app h = record {
  windows = refl;
  closed = λ v. ground arith;
  closings_kept = λ v. refl;
}

-- A change of the two flags alone.
pub Quiet-flags :
    (q ready : Bool) (app : App) → Quiet app (record app { is_quiting = q; is_ready = ready })
Quiet-flags q ready app = record { windows = refl; closed = λ v. refl; closings_kept = λ v. refl }

pub Quiet-if :
    {app x y : App} (b : Bool) → Quiet app x → Quiet app y → Quiet app (if b then x else y)
Quiet-if true p q = p
Quiet-if false p q = q

window_close_was_cancelled-Quiet :
    (w : ℕ) (app : App) → Quiet app (window_close_was_cancelled w app)
unfolding window_close_was_cancelled
window_close_was_cancelled-Quiet w app =
    let told = Quiet-send (window_close_cancelled w) app (λ v. refl) in
    Quiet-if app.is_quiting (Quiet-trans told (Quiet-flags false app.is_ready _)) told

notify_and_shutdown-Quiet : (a : Answers) (app : App) → Quiet app (notify_and_shutdown a app)
unfolding notify_and_shutdown
notify_and_shutdown-Quiet a app =
    let asked = Quiet-send will_quit app (λ v. refl) in
    let told = Quiet-trans asked (Quiet-send quit_event _ (λ v. refl)) in
    let gone = Quiet-trans told (Quiet-flags true app.is_ready _) in
    Quiet-if a.prevent_will_quit (Quiet-trans asked (Quiet-flags false app.is_ready _))
      (Quiet-trans gone (Quiet-send quit_message_loop _ (λ v. refl)))

pub on_window_all_closed-Quiet : (a : Answers) (app : App) → Quiet app (on_window_all_closed a app)
unfolding on_window_all_closed
on_window_all_closed-Quiet a app =
    Quiet-if app.is_quiting (notify_and_shutdown-Quiet a app)
      (Quiet-send window_all_closed app (λ v. refl))

schedule-is_closed :
    (ms : ℕ) (o : Window) → (schedule_unresponsive_event ms o).is_closed ≡ o.is_closed
unfolding schedule_unresponsive_event
schedule-is_closed ms o = ground arith

close_web_contents-Quiet :
    (a : Answers) (w : ℕ) (app : App) → Quiet app (close_web_contents a w app)
unfolding close_web_contents
close_web_contents-Quiet a w app =
    let waiting =
      Quiet-set_window w (schedule_unresponsive_event 5000 (app.window w)) app
        (schedule-is_closed 5000 (app.window w)) in
    Quiet-if (a.prevent_close w) (window_close_was_cancelled-Quiet w app) (
      Quiet-if (not (app.window w).has_contents) (Quiet-send (close_immediately w) app (λ v. refl))
        (Quiet-if (a.has_before_unload w)
          (Quiet-trans waiting (Quiet-send (dispatch_before_unload w) _ (λ v. refl)))
          (Quiet-trans waiting (Quiet-send (web_contents_close w) _ (λ v. refl)))))

close_each-Quiet : (a : Answers) (ws : List ℕ) (app : App) → Quiet app (close_each a ws app)
unfolding close_each
close_each-Quiet a [] app = Quiet-refl app
close_each-Quiet a (w ∷ ws) app =
    Quiet-trans (close_web_contents-Quiet a w app)
      (close_each-Quiet a ws (close_web_contents a w app))

close_all_windows-Quiet : (a : Answers) (app : App) → Quiet app (close_all_windows a app)
unfolding close_all_windows
close_all_windows-Quiet a app = close_each-Quiet a app.windows app

quit-Quiet : (a : Answers) (app : App) → Quiet app (quit a app)
unfolding quit
quit-Quiet a app =
    let goes_on = not a.prevent_before_quit in
    let told = record (send before_quit app) { is_quiting = goes_on } in
    let asked : Quiet app told =
      Quiet-trans (Quiet-send before_quit app (λ v. refl)) (Quiet-flags goes_on app.is_ready _) in
    let after = if is_empty told.windows then notify_and_shutdown a told else told in
    let shut : Quiet told after =
      Quiet-if (is_empty told.windows) (notify_and_shutdown-Quiet a told) (Quiet-refl told) in
    Quiet-if (not goes_on) asked
      (Quiet-trans asked (Quiet-trans shut (close_all_windows-Quiet a after)))

fire-Quiet : (t : Option ℕ) (w : ℕ) (app : App) → Quiet app (fire t w app)
unfolding fire
fire-Quiet none w app = Quiet-refl app
fire-Quiet (some ms) w app =
    let idle = Quiet-set_window w (record (app.window w) { unresponsive_after = none }) app refl in
    Quiet-if (not (app.window w).is_closed && not (app.window w).has_dialog_attached)
      (Quiet-trans idle (Quiet-send (renderer_unresponsive w) _ (λ v. refl))) idle

before_unload-Quiet :
    (w : ℕ) (proceed : Bool) (app : App) → Quiet app (before_unload_fired w proceed app)
unfolding before_unload_fired
before_unload-Quiet w proceed app =
    Quiet-if (not proceed)
      (Quiet-trans (window_close_was_cancelled-Quiet w app) (Quiet-set_window w _ _ refl))
      (Quiet-refl app)

-- Every event but the creation of a window and the deletion of its widget.
abbrev pub LeavesWindows : Event → Type 0
LeavesWindows (created w) = ⊥
LeavesWindows (widget_deleted w) = ⊥
LeavesWindows e = Unit

pub step-Quiet : (a : Answers) (e : Event) (app : App) → LeavesWindows e → Quiet app (step a e app)
unfolding step
step-Quiet a (created w) app h = absurd h
step-Quiet a (widget_deleted w) app h = absurd h
step-Quiet a (closes w) app h = close_web_contents-Quiet a w app
step-Quiet a (contents_closed w) app h =
    Quiet-trans (Quiet-set_window w _ app refl) (Quiet-send (close_immediately w) _ (λ v. refl))
step-Quiet a (unresponsive w) app h =
    Quiet-set_window w _ app (schedule-is_closed 50 (app.window w))
step-Quiet a (responsive w) app h =
    Quiet-trans (Quiet-set_window w _ app refl) (Quiet-send (renderer_responsive w) _ (λ v. refl))
step-Quiet a (timer_fired w) app h = fire-Quiet (app.window w).unresponsive_after w app
step-Quiet a (before_unload w proceed) app h = before_unload-Quiet w proceed app
step-Quiet a (dialog_attached w attached) app h = Quiet-set_window w _ app refl
step-Quiet a quits app h = quit-Quiet a app
