-- ===== src/Lifecycle/Browser.antt =====
-- Browser and WindowList (atom/browser/browser.cc, atom/browser/window_list.cc). Browser is the one
-- observer of the window list.
use atom_shell.Common.{ℕ, ◌==◌, Bool, true, false, not, List, [], ◌∷◌, ◌++◌, if◌then◌else◌, keep_if}
use atom_shell.Lifecycle.State.{
  App, Answers, send, window_added, window_removed, window_close_cancelled, window_all_closed,
  before_quit, will_quit, quit_event, quit_message_loop, will_finish_launching, finish_launching,
}

unfoldable pub shutdown : App → App
unfolding send
shutdown app = send quit_message_loop (record (send quit_event app) { is_quiting = true })

unfoldable pub notify_and_shutdown : Answers → App → App
unfolding shutdown
notify_and_shutdown a app =
    let asked = send will_quit app in
    if a.prevent_will_quit then record asked { is_quiting = false } else shutdown asked

-- The result is true if the quit goes on.
unfoldable pub handle_before_quit : Answers → App → App × Bool
unfolding send
handle_before_quit a app = (send before_quit app, not a.prevent_before_quit)

-- Browser::OnWindowCloseCancelled.
unfoldable pub on_window_close_cancelled : App → App
on_window_close_cancelled app = if app.is_quiting then record app { is_quiting = false } else app

-- Browser::OnWindowAllClosed.
unfoldable pub on_window_all_closed : Answers → App → App
unfolding notify_and_shutdown
on_window_all_closed a app =
    if app.is_quiting then notify_and_shutdown a app else send window_all_closed app

unfoldable pub will_finish : App → App
unfolding send
will_finish app = send will_finish_launching app

unfoldable pub did_finish : App → App
unfolding send
did_finish app = send finish_launching (record app { is_ready = true })

-- WindowList::AddWindow.
unfoldable pub add_window : ℕ → App → App
unfolding send
add_window w app = send (window_added w) (record app { windows = app.windows ++ w ∷ [] })

unfoldable pub is_empty : List ℕ → Bool
is_empty [] = true
is_empty (w ∷ ws) = false

-- WindowList::RemoveWindow.
unfoldable pub remove_window : Answers → ℕ → App → App
unfolding on_window_all_closed is_empty
remove_window a w app =
    let removed =
      send (window_removed w) (record app { windows = keep_if (λ v. not (v == w)) app.windows }) in
    if is_empty removed.windows then on_window_all_closed a removed else removed

-- WindowList::WindowCloseCancelled.
unfoldable pub window_close_was_cancelled : ℕ → App → App
unfolding on_window_close_cancelled send
window_close_was_cancelled w app = on_window_close_cancelled (send (window_close_cancelled w) app)
