-- ===== src/Renderer/Client.antt =====
-- AtomBrowserClient (atom/browser/atom_browser_client.cc): which switches a renderer is launched with,
-- and which preferences a page gets. The processes that content::RenderProcessHost::FromID finds are an
-- argument.
use atom_shell.Common.{
  ℕ, Bool, true, false, not, Option, none, some, List, [], ◌∷◌, ◌++◌, String, str_eq, ◌==◌,
  if◌then◌else◌,
}
use atom_shell.Renderer.Guests.{
  GuestInfo, Managers, Process, get_info_for_process, update_guest_process_id,
}
use atom_shell.Renderer.Windows.{
  CommandLine, Settings, bool_text, append_window_switches, WebPreferences, override_window_prefs,
}

-- A window of the list: the process of its WebContents, if it has any, the number of the contents, and its settings.
pub record BrowserWindow (D : Type 0) : Type 0 where
  pub process_of_contents : Option ℕ
  pub contents : ℕ
  pub settings : Settings D

pub record Client : Type 0 where
  pub dying_render_process : Option Process
  pub suppress_restart : Bool

unfoldable pub suppress_renderer_process_restart_for_once : Client → Client
suppress_renderer_process_restart_for_once client = record client { suppress_restart = true }

abbrev pub or_process : Option Process → Option Process → Option Process
or_process none p = p
or_process (some q) p = some q

-- The process of the current site instance, and whether a new instance is made.
unfoldable pub override_site_instance : Option Process → Client → Bool × Client
override_site_instance current client =
    if client.suppress_restart then (false, record client { suppress_restart = false }) else (
      true,
      record client { dying_render_process = or_process current client.dying_render_process },
    )

abbrev pub is_in_process : ℕ → Option ℕ → Bool
is_in_process id none = false
is_in_process id (some p) = p == id

-- std::find_if with FindByProcessId.
abbrev pub find_window : {D : Type 0} → ℕ → List (BrowserWindow D) → Option (BrowserWindow D)
find_window id [] = none
find_window id (w ∷ rest) =
    if is_in_process id w.process_of_contents then some w else find_window id rest

abbrev pub guest_switches : (ℕ → String) → Option GuestInfo → CommandLine → CommandLine
guest_switches int_to_string none command_line = command_line
guest_switches int_to_string (some info) command_line =
    command_line
    ++ ((("guest-instance-id", some (int_to_string info.guest_instance_id)) ∷ [])
        ++ ((("node-integration", some (bool_text info.node_integration)) ∷ [])
            ++ ((if info.plugins then (("enable-plugins", none) ∷ []) else [])
                ++ (if not (str_eq info.preload_script "")
                    then (("preload", some info.preload_script) ∷ [])
                    else []))))

-- The window that owns the renderer, and the guests after the search.
abbrev pub search_dying :
    {D : Type 0}
    → Option (BrowserWindow D)
    → Process
    → Process
    → Managers
    → Option (BrowserWindow D) × Managers
search_dying (some w) dying child managers = (some w, managers)
search_dying none dying child managers = (none, update_guest_process_id dying child managers)

abbrev pub find_owner :
    {D : Type 0}
    → Option (BrowserWindow D)
    → Option Process
    → Process
    → List (BrowserWindow D)
    → Managers
    → Option (BrowserWindow D) × Managers
find_owner (some w) dying child windows managers = (some w, managers)
find_owner none none child windows managers = (none, managers)
find_owner none (some dying) child windows managers =
    search_dying (find_window dying.process_id windows) dying child managers

module _ {D : Type 0} (is_win : Bool) (is_one : D → Bool) (double_to_string : D → String)
    (int_to_string : ℕ → String) where
  abbrev pub switches_for :
      Option (BrowserWindow D) × Managers → Process → CommandLine → CommandLine
  switches_for (some w, managers) child command_line =
      append_window_switches is_win is_one double_to_string w.settings command_line
  switches_for (none, managers) child command_line =
      guest_switches int_to_string (get_info_for_process (some child) managers) command_line

  -- AppendExtraCommandLineSwitches for the process that is launched.
  unfoldable pub append_switches :
      String
      → Process
      → List (BrowserWindow D)
      → Client
      → Managers
      → CommandLine
      → CommandLine × (Client × Managers)
  append_switches process_type child windows client managers command_line =
      if not (str_eq process_type "renderer")
      then (command_line, (client, managers))
      else let owner =
          find_owner (find_window child.process_id windows) client.dying_render_process child
            windows managers in
        (
          switches_for owner child command_line,
          (record client { dying_render_process = none }, owner.1),
        )

-- What AtomBrowserClient::OverrideWebkitPrefs sets first.
abbrev pub default_prefs : WebPreferences → WebPreferences
default_prefs prefs = record prefs {
  javascript_enabled = true;
  web_security_enabled = true;
  plugins_enabled = true;
  javascript_can_open_windows_automatically = true;
  dom_paste_enabled = true;
  allow_scripts_to_close_windows = true;
  javascript_can_access_clipboard = true;
  local_storage_enabled = true;
  databases_enabled = true;
  application_cache_enabled = true;
  allow_universal_access_from_file_urls = true;
  allow_file_access_from_file_urls = true;
  java_enabled = false;
  experimental_webgl_enabled = true;
  allow_displaying_insecure_content = false;
  allow_running_insecure_content = false;
}

-- NativeWindow::FromWebContents.
abbrev pub from_web_contents : {D : Type 0} → ℕ → List (BrowserWindow D) → Option (BrowserWindow D)
from_web_contents c [] = none
from_web_contents c (w ∷ rest) = if w.contents == c then some w else from_web_contents c rest

abbrev pub window_prefs : {D : Type 0} → Option (BrowserWindow D) → WebPreferences → WebPreferences
window_prefs none prefs = prefs
window_prefs (some w) prefs = override_window_prefs w.settings.web_preferences prefs

abbrev pub page_prefs :
    {D : Type 0} → Option GuestInfo → Option (BrowserWindow D) → WebPreferences → WebPreferences
page_prefs (some info) window prefs = record prefs {
  web_security_enabled = not info.disable_web_security;
}
page_prefs none window prefs = window_prefs window prefs

-- A page: the number of its WebContents, its process, and whether its URL is of the scheme
-- chrome-devtools.
unfoldable pub override_webkit_prefs :
    {D : Type 0}
    → ℕ
    → Process
    → Bool
    → List (BrowserWindow D)
    → Managers
    → WebPreferences
    → WebPreferences
override_webkit_prefs contents process is_devtools windows managers prefs =
    if is_devtools
    then record (default_prefs prefs) { web_security_enabled = false }
    else page_prefs (get_info_for_process (some process) managers)
        (from_web_contents contents windows) (default_prefs prefs)
