-- ===== src/Renderer/Tests.antt =====
-- Runs of the renderer modules at concrete guests and windows.
use atom_shell.Common.{
  ℕ, ◌≡◌, refl, Bool, true, false, none, some, List, [], ◌∷◌, String, ◌==◌, if◌then◌else◌, arith,
}
use atom_shell.Common.Dictionary.{nat_key, pair_key}
use atom_shell.Renderer.Guests.{
  GuestInfo, Manager, Managers, Process, get_info, get_info_for_process, get_manager_from_process,
}
use atom_shell.Renderer.Attach.{IsFresh}
use atom_shell.Renderer.Windows.{Options, Settings, WebPreferences}
use atom_shell.Renderer.Client.{
  BrowserWindow, Client, override_site_instance, guest_switches, append_switches,
}
use atom_shell.Renderer.Moves.{append_switches-guest}

-- A guest without node integration, which asks for no web security.
abbrev info : GuestInfo
info = record {
  guest_instance_id = 3;
  info_embedder = 50;
  node_integration = false;
  plugins = true;
  disable_web_security = true;
  preload_script = "/app/preload.js";
}

-- The guest 3 shows the contents 60 in the process 7.
abbrev manager : Manager
manager = record {
  guests = (3, record { web_contents = 60; embedder = 50 }) ∷ [];
  elements = ((2, 1), 3) ∷ [];
  infos = (7, info) ∷ [];
}

abbrev process_of : ℕ → ℕ
process_of c = if c == 50 then 2 else if c == 60 then 7 else 9

fresh : IsFresh process_of 4 2 50 61 manager
fresh = record { no_guest = refl; unnamed = refl; no_element = refl; no_info = refl }

abbrev options : Options ℕ
options = record {
  node_integration_bool = none;
  node_integration_string = some "disable";
  preload_option = some "preload.js";
  zoom_factor_option = some 2;
  web_preferences_option = some (("web-security", false) ∷ ("shared-worker", true) ∷ []);
}

abbrev is_absolute : String → Bool
is_absolute path = false

abbrev settings : Settings ℕ
settings = record {
  node_integration = false;
  preload_script = "/app/window.js";
  zoom_factor = 2;
  web_preferences = options.web_preferences_option;
}

abbrev client : Client
client = record { dying_render_process = none; suppress_restart = false }

abbrev managers : Managers
managers = λ c. manager

abbrev old_process : Process
old_process = record { process_id = 7; guest_manager = some 0 }

abbrev new_process : Process
new_process = record { process_id = 8; guest_manager = some 0 }

abbrev windows : List (BrowserWindow ℕ)
windows = record { process_of_contents = some 2; contents = 50; settings = settings } ∷ []

append_switches-guest_example :
    let launched =
      append_switches true
        (λ d. d == 1)
        (λ d. "2")
        (λ n. "3")
        "renderer"
        new_process
        windows
        (override_site_instance (some old_process) client).1
        managers
        [] in
    (launched.0 ≡ guest_switches (λ n. "3") (some info) [])
    × ((get_info_for_process (some new_process) launched.1.1 ≡ some info)
        × (get_info_for_process (some old_process) launched.1.1 ≡ none))
unfolding get_info_for_process get_manager_from_process get_info
append_switches-guest_example =
    append_switches-guest true (λ d. d == 1) (λ d. "2") (λ n. "3") old_process new_process 0 info
      windows client managers [] refl refl refl (omega arith) refl refl refl

abbrev prefs : WebPreferences
prefs = record {
  javascript_enabled = false;
  web_security_enabled = false;
  images_enabled = true;
  java_enabled = true;
  text_areas_are_resizable = true;
  experimental_webgl_enabled = false;
  webaudio_enabled = true;
  plugins_enabled = false;
  javascript_can_open_windows_automatically = false;
  dom_paste_enabled = false;
  allow_scripts_to_close_windows = false;
  javascript_can_access_clipboard = false;
  local_storage_enabled = false;
  databases_enabled = false;
  application_cache_enabled = false;
  allow_universal_access_from_file_urls = false;
  allow_file_access_from_file_urls = false;
  allow_displaying_insecure_content = true;
  allow_running_insecure_content = true;
}
