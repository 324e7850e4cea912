-- ===== src/Lifecycle/State.antt =====
-- The state that Browser, WindowList and the NativeWindows share, and the messages they send
-- (atom/browser/browser.h, atom/browser/window_list.h, atom/browser/native_window.h).
use atom_shell.Common.{ℕ, ◌==◌, Bool, Option, List, [], ◌∷◌, ◌++◌, if◌then◌else◌}

-- A NativeWindow. `has_contents` says that inspectable_web_contents_ is set; `unresponsive_after` is
-- the delay in ms of window_unresposive_closure_, or none while that is cancelled.
pub record Window : Type 0 where
  pub is_closed : Bool
  pub has_contents : Bool
  pub has_dialog_attached : Bool
  pub unresponsive_after : Option ℕ

-- What the code tells its observers and the content layer, in the order of the calls.
pub data Message : Type 0 where
  window_added window_removed window_close_cancelled : ℕ → Message
  window_closed renderer_unresponsive renderer_responsive : ℕ → Message
  window_all_closed before_quit will_quit quit_event quit_message_loop : Message
  dispatch_before_unload web_contents_close close_immediately : ℕ → Message
  will_finish_launching finish_launching : Message

-- A window is a number, `window` gives the object behind it. `windows` is WindowList::windows_.
pub record App : Type 0 where
  pub windows : List ℕ
  pub window : ℕ → Window
  pub is_quiting : Bool
  pub is_ready : Bool
  pub sent : List Message

-- What JavaScript answers when asked: whether it prevents the default of "before-quit", of
-- "will-quit" and of a window's "close", and whether a page has a beforeunload handler.
pub record Answers : Type 0 where
  pub prevent_before_quit : Bool
  pub prevent_will_quit : Bool
  pub prevent_close : ℕ → Bool
  pub has_before_unload : ℕ → Bool

unfoldable pub send : Message → App → App
send m app = record app { sent = app.sent ++ m ∷ [] }

unfoldable pub set_window : ℕ → Window → App → App
set_window w object app = record app { window = λ v. if v == w then object else app.window v }
