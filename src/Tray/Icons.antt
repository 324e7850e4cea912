-- ===== src/Tray/Icons.antt =====
-- NotifyIconHost (atom/browser/ui/win/notify_icon_host.cc) and NotifyIcon (atom/browser/ui/win/notify_icon.cc). An icon is
-- named by its identifier, an image is a number.
use atom_shell.Common.{
  ℕ, suc, ◌+◌, ◌%◌, ◌^◌, Bool, true, false, Option, none, some, List, [], ◌∷◌, ◌++◌, String, ◌==◌,
  if◌then◌else◌,
}

pub record NotifyIcon : Type 0 where
  pub icon_id : ℕ
  pub icon : Option ℕ
  pub menu_model : Option ℕ

pub record NotifyIconHost : Type 0 where
  pub next_icon_id : ℕ
  pub notify_icons : List NotifyIcon

-- Shell_NotifyIcon with NIM_ADD, NIM_MODIFY and NIF_ICON, NIM_MODIFY and NIF_TIP, and NIM_DELETE: the BOOL that it
-- returns and the taskbar after it; and which image the taskbar has for an identifier, if it has the identifier. NULL is
-- no image.
pub record Shell : Type 1 where
  pub Taskbar : Type 0
  pub nim_add : ℕ → Option ℕ → Taskbar → Bool × Taskbar
  pub nim_modify_icon : ℕ → Option ℕ → Taskbar → Bool × Taskbar
  pub nim_modify_tip : ℕ → String → Taskbar → Bool × Taskbar
  pub nim_delete : ℕ → Taskbar → Bool × Taskbar
  pub image_at : Taskbar → ℕ → Option (Option ℕ)

abbrev pub base_icon_id : ℕ
base_icon_id = 2

abbrev pub new_notify_icon_host : NotifyIconHost
new_notify_icon_host = record { next_icon_id = 1; notify_icons = [] }

-- The identifier that NextIconId returns, and the next one.
abbrev pub next_icon : NotifyIconHost → ℕ
next_icon host = (base_icon_id + host.next_icon_id) % 2 ^ 32

abbrev pub new_notify_icon : ℕ → NotifyIcon
new_notify_icon id = record { icon_id = id; icon = none; menu_model = none }

abbrev pub find_icon : ℕ → List NotifyIcon → Option NotifyIcon
find_icon id [] = none
find_icon id (i ∷ rest) = if i.icon_id == id then some i else find_icon id rest

abbrev pub change_icon : ℕ → (NotifyIcon → NotifyIcon) → List NotifyIcon → List NotifyIcon
change_icon id f [] = []
change_icon id f (i ∷ rest) =
    let changed = change_icon id f rest in if i.icon_id == id then f i ∷ rest else i ∷ changed

-- std::find and erase.
abbrev pub remove_icon : ℕ → List NotifyIcon → List NotifyIcon
remove_icon id [] = []
remove_icon id (i ∷ rest) =
    let removed = remove_icon id rest in if i.icon_id == id then rest else i ∷ removed

-- The host, the taskbar, and how many warnings of a failed call were logged.
pub record Desktop (shell : Shell) : Type 0 where
  pub host : NotifyIconHost
  pub taskbar : shell.Taskbar
  pub warnings : ℕ

abbrev pub warn_if_failed : Bool → ℕ → ℕ
warn_if_failed result warnings = if result then warnings else suc warnings

module _ (shell : Shell) where
  -- A call of Shell_NotifyIcon whose result is looked at.
  abbrev pub notified : NotifyIconHost → ℕ → Bool × shell.Taskbar → Desktop shell
  notified host warnings called = record {
    host = host;
    taskbar = called.1;
    warnings = warn_if_failed called.0 warnings;
  }

  unfoldable pub create_notify_icon : Desktop shell → Desktop shell
  create_notify_icon d =
      notified
        (record {
          next_icon_id = (d.host.next_icon_id + 1) % 2 ^ 32;
          notify_icons = d.host.notify_icons ++ new_notify_icon (next_icon d.host) ∷ [];
        })
        d.warnings (shell.nim_add (next_icon d.host) none d.taskbar)

  unfoldable pub set_image : ℕ → Option ℕ → Desktop shell → Desktop shell
  set_image id image d =
      notified
        (record (d.host) {
          notify_icons = change_icon id (λ i. record i { icon = image }) d.host.notify_icons;
        })
        d.warnings (shell.nim_modify_icon id image d.taskbar)

  unfoldable pub set_tool_tip : ℕ → String → Desktop shell → Desktop shell
  set_tool_tip id tip d = notified d.host d.warnings (shell.nim_modify_tip id tip d.taskbar)

  unfoldable pub set_context_menu : ℕ → Option ℕ → Desktop shell → Desktop shell
  set_context_menu id menu d = record d {
    host = record (d.host) {
      notify_icons = change_icon id (λ i. record i { menu_model = menu }) d.host.notify_icons;
    };
  }

  -- The destructor of a NotifyIcon, with Remove of the host; nobody looks at the result of NIM_DELETE.
  unfoldable pub delete_icon : ℕ → Desktop shell → Desktop shell
  delete_icon id d = record d {
    host = record (d.host) { notify_icons = remove_icon id d.host.notify_icons };
    taskbar = (shell.nim_delete id d.taskbar).1;
  }

  abbrev pub reset_icon : NotifyIcon → Desktop shell → Desktop shell
  reset_icon i d =
      notified d.host d.warnings
        (shell.nim_add i.icon_id i.icon (shell.nim_delete i.icon_id d.taskbar).1)

  abbrev pub reset_each : List NotifyIcon → Desktop shell → Desktop shell
  reset_each [] d = d
  reset_each (i ∷ rest) d = reset_each rest (reset_icon i d)

  -- WndProc gets taskbar_created_message_ when the taskbar was made again; `taskbar` is that new one.
  unfoldable pub on_taskbar_created : shell.Taskbar → Desktop shell → Desktop shell
  on_taskbar_created taskbar d = reset_each d.host.notify_icons (record d { taskbar = taskbar })

-- What the message of an icon says, and what becomes of it: DefWindowProc, or what the icon's observers and its menu get.
pub data Signal : Type 0 where
  check_button : Signal
  indeterminate : Signal
  hide_button : Signal
  left_button_down : Signal
  right_button_down : Signal
  context_menu : Signal
  other_signal : Signal

pub data Response : Type 0 where
  default_procedure : Response
  no_response : Response
  balloon_shown : ℕ → Response
  balloon_clicked : ℕ → Response
  balloon_closed : ℕ → Response
  clicked : ℕ → Response
  menu_run : ℕ → Response

-- HandleClickEvent; the first argument is what SetForegroundWindow answers.
abbrev pub run_menu : Bool → Option ℕ → Response
run_menu is_foreground none = no_response
run_menu is_foreground (some menu) = if is_foreground then menu_run menu else no_response

abbrev pub handle_click_event : Bool → NotifyIcon → Bool → Response
handle_click_event is_foreground i true = clicked i.icon_id
handle_click_event is_foreground i false = run_menu is_foreground i.menu_model

abbrev pub respond : Bool → NotifyIcon → Signal → Response
respond is_foreground i check_button = balloon_shown i.icon_id
respond is_foreground i indeterminate = balloon_clicked i.icon_id
respond is_foreground i hide_button = balloon_closed i.icon_id
respond is_foreground i left_button_down = handle_click_event is_foreground i true
respond is_foreground i right_button_down = handle_click_event is_foreground i false
respond is_foreground i context_menu = handle_click_event is_foreground i false
respond is_foreground i other_signal = default_procedure

abbrev pub respond_if_found : Bool → Option NotifyIcon → Signal → Response
respond_if_found is_foreground none signal = no_response
respond_if_found is_foreground (some i) signal = respond is_foreground i signal

-- WndProc for kNotifyIconMessage.
unfoldable pub on_notify_icon_message : Bool → NotifyIconHost → ℕ → Signal → Response
on_notify_icon_message is_foreground host id signal =
    respond_if_found is_foreground (find_icon id host.notify_icons) signal
