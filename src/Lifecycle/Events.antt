-- ===== src/Lifecycle/Events.antt =====
-- What can happen to the application, as one event after another: the calls that the windows'
-- platform code, the content layer and the message loop make into atom/browser/browser.cc and
-- atom/browser/native_window.cc.
use atom_shell.Common.{ℕ, Bool, List, [], ◌∷◌}
use atom_shell.Lifecycle.State.{App, Answers}
use atom_shell.Lifecycle.Closing.{
  create, close_web_contents, before_unload_fired, close_contents, notify_window_closed,
  on_unresponsive, on_responsive, notify_window_unresponsive, set_has_dialog_attached, quit,
}

pub data Event : Type 0 where
  created closes contents_closed widget_deleted : ℕ → Event
  unresponsive responsive timer_fired : ℕ → Event
  before_unload dialog_attached : ℕ → Bool → Event
  quits : Event

unfoldable pub step : Answers → Event → App → App
unfolding create close_web_contents close_contents notify_window_closed on_unresponsive
    on_responsive notify_window_unresponsive before_unload_fired set_has_dialog_attached quit
step a (created w) app = create w app
step a (closes w) app = close_web_contents a w app
step a (contents_closed w) app = close_contents w app
step a (widget_deleted w) app = notify_window_closed a w app
step a (unresponsive w) app = on_unresponsive w app
step a (responsive w) app = on_responsive w app
step a (timer_fired w) app = notify_window_unresponsive w app
step a (before_unload w proceed) app = before_unload_fired w proceed app
step a (dialog_attached w attached) app = set_has_dialog_attached w attached app
step a quits app = quit a app

-- Each event comes with the answers that JavaScript gives while it is handled.
unfoldable pub run : List (Answers × Event) → App → App
run [] app = app
run ((a, e) ∷ es) app = run es (step a e app)
