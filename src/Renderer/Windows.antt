-- ===== src/Renderer/Windows.antt =====
-- The options of a NativeWindow and what it tells its renderer (atom/browser/native_window.cc). The
-- numbers of JavaScript, D, and their text are parameters; so is what native_mate reads from an option.
use atom_shell.Common.{
  Bool, true, false, not, ◌&&◌, Option, none, some, List, [], ◌∷◌, ◌++◌, String, str_eq,
  if◌then◌else◌,
}
use atom_shell.Common.Dictionary.{string_key, lookup}

-- A switch with or without a value.
abbrev pub CommandLine : Type 0
CommandLine = List (String × Option String)

-- What mate::Dictionary::Get of each type reads from the options.
pub record Options (D : Type 0) : Type 0 where
  pub node_integration_bool : Option Bool
  pub node_integration_string : Option String
  pub preload_option : Option String
  pub zoom_factor_option : Option D
  pub web_preferences_option : Option (List (String × Bool))

pub record Settings (D : Type 0) : Type 0 where
  pub node_integration : Bool
  pub preload_script : String
  pub zoom_factor : D
  -- The Boolean entries of web_preferences_; `none` is an empty handle.
  pub web_preferences : Option (List (String × Bool))

abbrev pub or_else {ℓ} : {A : Type ℓ} → Option A → A → A
or_else none a = a
or_else (some b) a = b

abbrev pub absolute_or_empty : (String → Bool) → Option String → String
absolute_or_empty is_absolute none = ""
absolute_or_empty is_absolute (some path) = if not (is_absolute path) then "" else path

abbrev pub old_node_integration : Option String → Bool → Bool
old_node_integration none b = b
old_node_integration (some token) b = if not (str_eq token "disable") then true else b

-- The options that the constructor reads for the renderer; one is the default zoom factor 1.0.
unfoldable pub settings_of : {D : Type 0} → (String → Bool) → D → Options D → Settings D
settings_of is_absolute one options = record {
  node_integration =
      old_node_integration options.node_integration_string
        (or_else options.node_integration_bool true);
  preload_script = absolute_or_empty is_absolute options.preload_option;
  zoom_factor = or_else options.zoom_factor_option one;
  web_preferences = options.web_preferences_option;
}

abbrev pub bool_text : Bool → String
bool_text b = if b then "true" else "false"

abbrev pub runtime_features : List String
runtime_features =
    "experimental-features" ∷ "experimental-canvas-features" ∷ "subpixel-font-scaling"
    ∷ "overlay-scrollbars" ∷ "overlay-fullscreen-video" ∷ "shared-worker" ∷ []

abbrev pub feature_switch : String → Option Bool → CommandLine
feature_switch feature none = []
feature_switch feature (some b) = (feature, some (bool_text b)) ∷ []

-- The loop over kWebRuntimeFeatures.
abbrev pub feature_switches : List String → List (String × Bool) → CommandLine
feature_switches [] preferences = []
feature_switches (feature ∷ rest) preferences =
    feature_switch feature (lookup feature preferences) ++ feature_switches rest preferences

abbrev pub is_on : Option Bool → Bool
is_on none = false
is_on (some b) = b

abbrev pub is_off : Option Bool → Bool
is_off none = false
is_off (some b) = not b

abbrev pub preference_switches : Bool → Option (List (String × Bool)) → CommandLine
preference_switches is_win none = []
preference_switches is_win (some preferences) =
    (if is_win && is_off (lookup "direct-write" preferences)
      then (("disable-direct-write", none) ∷ [])
      else [])
    ++ ((if is_on (lookup "plugins" preferences) then (("enable-plugins", none) ∷ []) else [])
        ++ feature_switches runtime_features preferences)

module _ {D : Type 0} (is_win : Bool) (is_one : D → Bool) (double_to_string : D → String) where
  -- NativeWindow::AppendExtraCommandLineSwitches.
  unfoldable pub append_window_switches : Settings D → CommandLine → CommandLine
  append_window_switches w command_line =
      command_line
      ++ ((("node-integration", some (bool_text w.node_integration)) ∷ [])
          ++ ((if not (str_eq w.preload_script "")
                then (("preload", some w.preload_script) ∷ [])
                else [])
              ++ ((if not (is_one w.zoom_factor)
                    then (("zoom-factor", some (double_to_string w.zoom_factor)) ∷ [])
                    else [])
                  ++ preference_switches is_win w.web_preferences)))

-- The fields of content::WebPreferences that the code sets.
pub record WebPreferences : Type 0 where
  pub javascript_enabled : Bool
  pub web_security_enabled : Bool
  pub images_enabled : Bool
  pub java_enabled : Bool
  pub text_areas_are_resizable : Bool
  pub experimental_webgl_enabled : Bool
  pub webaudio_enabled : Bool
  pub plugins_enabled : Bool
  pub javascript_can_open_windows_automatically : Bool
  pub dom_paste_enabled : Bool
  pub allow_scripts_to_close_windows : Bool
  pub javascript_can_access_clipboard : Bool
  pub local_storage_enabled : Bool
  pub databases_enabled : Bool
  pub application_cache_enabled : Bool
  pub allow_universal_access_from_file_urls : Bool
  pub allow_file_access_from_file_urls : Bool
  pub allow_displaying_insecure_content : Bool
  pub allow_running_insecure_content : Bool

abbrev pub override_from : List (String × Bool) → WebPreferences → WebPreferences
override_from given prefs = record prefs {
  javascript_enabled = or_else (lookup "javascript" given) prefs.javascript_enabled;
  web_security_enabled = or_else (lookup "web-security" given) prefs.web_security_enabled;
  images_enabled = or_else (lookup "images" given) prefs.images_enabled;
  java_enabled = or_else (lookup "java" given) prefs.java_enabled;
  text_areas_are_resizable =
      or_else (lookup "text-areas-are-resizable" given) prefs.text_areas_are_resizable;
  experimental_webgl_enabled = or_else (lookup "webgl" given) prefs.experimental_webgl_enabled;
  webaudio_enabled = or_else (lookup "webaudio" given) prefs.webaudio_enabled;
}

-- NativeWindow::OverrideWebkitPrefs, less the directories of plugins.
unfoldable pub override_window_prefs :
    Option (List (String × Bool)) → WebPreferences → WebPreferences
override_window_prefs none prefs = prefs
override_window_prefs (some given) prefs = override_from given prefs
