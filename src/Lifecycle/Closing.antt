-- ===== src/Lifecycle/Closing.antt =====
-- How a NativeWindow closes, and its unresponsive timer (atom/browser/native_window.cc). A window's
-- Close asks its widget to close, which asks CanClose, which calls CloseWebContents and refuses
-- (atom/browser/native_window_views.cc); CloseImmediately closes the widget, whose DeleteDelegate
-- calls NotifyWindowClosed.
use atom_shell.Common.{
  ℕ, Bool, true, false, not, ◌&&◌, Option, none, some, List, [], ◌∷◌, if◌then◌else◌,
}
use atom_shell.Lifecycle.State.{
  Window, App, Answers, send, set_window, window_closed, renderer_unresponsive, renderer_responsive,
  dispatch_before_unload, web_contents_close, close_immediately,
}
use atom_shell.Lifecycle.Browser.{
  add_window, remove_window, window_close_was_cancelled, notify_and_shutdown, handle_before_quit,
  is_empty,
}

-- The constructor.
unfoldable pub create : ℕ → App → App
unfolding set_window add_window
create w app = add_window w (
    set_window w
      (record {
        is_closed = false;
        has_contents = true;
        has_dialog_attached = false;
        unresponsive_after = none;
      })
      app)

-- ScheduleUnresponsiveEvent: nothing is scheduled over a timer that runs.
unfoldable pub schedule_unless : Option ℕ → ℕ → Window → Window
schedule_unless none ms o = record o { unresponsive_after = some ms }
schedule_unless (some earlier) ms o = o

unfoldable pub schedule_unresponsive_event : ℕ → Window → Window
unfolding schedule_unless
schedule_unresponsive_event ms o = schedule_unless o.unresponsive_after ms o

unfoldable pub cancel_unresponsive_event : Window → Window
cancel_unresponsive_event o = record o { unresponsive_after = none }

unfoldable pub close_web_contents : Answers → ℕ → App → App
unfolding window_close_was_cancelled schedule_unresponsive_event set_window send
close_web_contents a w app =
    if a.prevent_close w
    then window_close_was_cancelled w app
    else if not (app.window w).has_contents
    then send (close_immediately w) app
    else (let waiting = set_window w (schedule_unresponsive_event 5000 (app.window w)) app in
        if a.has_before_unload w
        then send (dispatch_before_unload w) waiting
        else send (web_contents_close w) waiting)

-- BeforeUnloadFired: the page's answer to dispatch_before_unload.
unfoldable pub before_unload_fired : ℕ → Bool → App → App
unfolding window_close_was_cancelled cancel_unresponsive_event set_window
before_unload_fired w proceed app =
    if not proceed
    then (let cancelled = window_close_was_cancelled w app in
        set_window w (cancel_unresponsive_event (cancelled.window w)) cancelled)
    else app

-- CloseContents: the web contents are gone.
unfoldable pub close_contents : ℕ → App → App
unfolding cancel_unresponsive_event set_window send
close_contents w app =
    send (close_immediately w) (
      set_window w (cancel_unresponsive_event (record (app.window w) { has_contents = false })) app)

unfoldable pub notify_window_closed : Answers → ℕ → App → App
unfolding remove_window set_window send
notify_window_closed a w app =
    if (app.window w).is_closed
    then app
    else remove_window a w
        (send (window_closed w) (set_window w (record (app.window w) { is_closed = true }) app))

-- RendererUnresponsive.
unfoldable pub on_unresponsive : ℕ → App → App
unfolding schedule_unresponsive_event set_window
on_unresponsive w app = set_window w (schedule_unresponsive_event 50 (app.window w)) app

-- RendererResponsive.
unfoldable pub on_responsive : ℕ → App → App
unfolding cancel_unresponsive_event set_window send
on_responsive w app =
    send (renderer_responsive w) (set_window w (cancel_unresponsive_event (app.window w)) app)

-- NotifyWindowUnresponsive, when the delayed task runs; a cancelled one does nothing.
unfoldable pub fire : Option ℕ → ℕ → App → App
unfolding cancel_unresponsive_event set_window send
fire none w app = app
fire (some ms) w app =
    let idle = set_window w (cancel_unresponsive_event (app.window w)) app in
    if not (app.window w).is_closed && not (app.window w).has_dialog_attached
    then send (renderer_unresponsive w) idle
    else idle

unfoldable pub notify_window_unresponsive : ℕ → App → App
unfolding fire
notify_window_unresponsive w app = fire (app.window w).unresponsive_after w app

unfoldable pub set_has_dialog_attached : ℕ → Bool → App → App
unfolding set_window
set_has_dialog_attached w attached app =
    set_window w (record (app.window w) { has_dialog_attached = attached }) app

-- WindowList::CloseAllWindows, over a copy of the list.
unfoldable pub close_each : Answers → List ℕ → App → App
close_each a [] app = app
close_each a (w ∷ ws) app = close_each a ws (close_web_contents a w app)

unfoldable pub close_all_windows : Answers → App → App
unfolding close_each
close_all_windows a app = close_each a app.windows app

-- Browser::Quit.
unfoldable pub quit : Answers → App → App
unfolding handle_before_quit close_all_windows notify_and_shutdown is_empty
quit a app =
    let (asked, goes_on) = handle_before_quit a app in
    let app' = record asked { is_quiting = goes_on } in
    if not goes_on
    then app'
    else close_all_windows a (if is_empty app'.windows then notify_and_shutdown a app' else app')
