-- ===== src/Lifecycle/Fullscreen.antt =====
-- HTML fullscreen (NativeWindow::SetHtmlApiFullscreen of atom/browser/native_window.cc). The
-- platform's SetFullScreen and IsFullscreen are taken as one flag.
use atom_shell.Common.{Bool, true, false, not, ◌&&◌, ◌≡◌, arith, if◌then◌else◌}

pub record Screen : Type 0 where
  pub is_fullscreen : Bool
  pub html_fullscreen : Bool
  pub native_fullscreen : Bool

unfoldable pub set_html_api_fullscreen : Bool → Screen → Screen
set_html_api_fullscreen enter s =
    if enter && s.is_fullscreen
    then record s { native_fullscreen = true; html_fullscreen = true }
    else if not enter && s.native_fullscreen
    then record s { html_fullscreen = false }
    else record { is_fullscreen = enter; html_fullscreen = enter; native_fullscreen = false }

-- A page that enters fullscreen is shown so and known to be so, and when it leaves, the window is
-- in fullscreen mode exactly if it was before the page entered.
pub enter-leave :
    (s : Screen)
    → let entered = set_html_api_fullscreen true s in
      let left = set_html_api_fullscreen false entered in
      (entered.is_fullscreen ≡ true)
      × (entered.html_fullscreen ≡ true)
      × (left.is_fullscreen ≡ s.is_fullscreen)
      × (left.html_fullscreen ≡ false)
unfolding set_html_api_fullscreen
enter-leave s = ground arith
