-- ===== src/Renderer/Navigation.antt =====
-- What launching a renderer and choosing a page's preferences guarantee
-- (atom/browser/atom_browser_client.cc, atom/browser/native_window.cc).
use atom_shell.Common.{
  ℕ, ◌≡◌, refl, ◌↔◌, ◌⊎◌, ◌∙◌, ap, Bool, true, false, not, ◌&&◌, Option, none, some, List, [], ◌∷◌,
  ◌++◌, String, str_eq, eq_iff, if◌then◌else◌, arith,
}
use atom_shell.Common.Dictionary.{nat_key, string_key, lookup}
use atom_shell.Renderer.Guests.{GuestInfo, Managers, Process, get_info_for_process}
use atom_shell.Renderer.Windows.{
  CommandLine, Options, Settings, settings_of, bool_text, append_window_switches, feature_switch,
  feature_switches, preference_switches, is_on, is_off, old_node_integration, or_else,
  runtime_features, WebPreferences, override_window_prefs,
}
use atom_shell.Renderer.Client.{
  BrowserWindow, from_web_contents, page_prefs, default_prefs, override_webkit_prefs,
}

-- Every value that the command line gives to the switch.
abbrev pub values : String → CommandLine → List (Option String)
values name [] = []
values name ((s, v) ∷ rest) = if str_eq s name then v ∷ values name rest else values name rest

values-append :
    (name : String) (l r : CommandLine) → values name (l ++ r) ≡ values name l ++ values name r
values-append name [] r = refl
values-append name ((s, v) ∷ l) r = ground (arith, values-append name l r)

-- The switches that are none of the given names.
feature_switch-values :
    (name feature : String) (o : Option Bool)
    → str_eq feature name ≡ false
    → values name (feature_switch feature o) ≡ []
feature_switch-values name feature none h = refl
feature_switch-values name feature (some b) h = rw h refl

abbrev names : String → List String → Bool
names name [] = false
names name (s ∷ rest) = if str_eq s name then true else names name rest

feature_switches-values :
    (name : String) (features : List String) (preferences : List (String × Bool))
    → names name features ≡ false
    → values name (feature_switches features preferences) ≡ []
feature_switches-values name [] preferences h = refl
feature_switches-values name (f ∷ rest) preferences h =
    values-append name (feature_switch f (lookup f preferences)) (feature_switches rest preferences)
    ∙ ground (
      arith,
      feature_switch-values name f (lookup f preferences),
      feature_switches-values name rest preferences,
    )

if-values :
    (name s : String) (v : Option String) (c : Bool)
    → str_eq s name ≡ false
    → values name (if c then ((s, v) ∷ []) else []) ≡ []
if-values name s v true h = rw h refl
if-values name s v false h = refl

append-none :
    (name : String) (l r : CommandLine)
    → values name l ≡ []
    → values name r ≡ []
    → values name (l ++ r) ≡ []
append-none name l r h k = values-append name l r ∙ ground (arith, h, k)

preference_switches-values :
    (is_win : Bool) (o : Option (List (String × Bool)))
    → values "node-integration" (preference_switches is_win o) ≡ []
preference_switches-values is_win none = refl
preference_switches-values is_win (some p) =
    append-none "node-integration"
      (if is_win && is_off (lookup "direct-write" p)
        then (("disable-direct-write", none) ∷ [])
        else [])
      ((if is_on (lookup "plugins" p) then (("enable-plugins", none) ∷ []) else [])
        ++ feature_switches runtime_features p)
      (if-values "node-integration" "disable-direct-write" none
        (is_win && is_off (lookup "direct-write" p)) refl)
      (append-none "node-integration"
        (if is_on (lookup "plugins" p) then (("enable-plugins", none) ∷ []) else [])
        (feature_switches runtime_features p)
        (if-values "node-integration" "enable-plugins" none (is_on (lookup "plugins" p)) refl)
        (feature_switches-values "node-integration" runtime_features p refl))

abbrev more : {D : Type 0} → Bool → (D → Bool) → (D → String) → Settings D → CommandLine
more is_win is_one double_to_string w =
    (if not (str_eq w.preload_script "") then (("preload", some w.preload_script) ∷ []) else [])
    ++ ((if not (is_one w.zoom_factor)
          then (("zoom-factor", some (double_to_string w.zoom_factor)) ∷ [])
          else [])
        ++ preference_switches is_win w.web_preferences)

-- A window gives its renderer exactly one value for node integration, after those the command line has,
-- and it is the setting of the window.
pub append_window_switches-values :
    {D : Type 0} (is_win : Bool) (is_one : D → Bool) (double_to_string : D → String)
    (w : Settings D) (command_line : CommandLine)
    → values "node-integration"
        (append_window_switches is_win is_one double_to_string w command_line)
      ≡ values "node-integration" command_line ++ (some (bool_text w.node_integration) ∷ [])
unfolding append_window_switches
append_window_switches-values is_win is_one double_to_string w command_line =
    values-append "node-integration" command_line (
      (("node-integration", some (bool_text w.node_integration)) ∷ [])
      ++ more is_win is_one double_to_string w)
    ∙ ap (λ x. values "node-integration" command_line ++ (some (bool_text w.node_integration) ∷ x))
        (append-none "node-integration"
          (if not (str_eq w.preload_script "")
            then (("preload", some w.preload_script) ∷ [])
            else [])
          ((if not (is_one w.zoom_factor)
              then (("zoom-factor", some (double_to_string w.zoom_factor)) ∷ [])
              else [])
            ++ preference_switches is_win w.web_preferences)
          (if-values "node-integration" "preload" (some w.preload_script)
            (not (str_eq w.preload_script "")) refl)
          (append-none "node-integration"
            (if not (is_one w.zoom_factor)
              then (("zoom-factor", some (double_to_string w.zoom_factor)) ∷ [])
              else [])
            (preference_switches is_win w.web_preferences)
            (if-values "node-integration" "zoom-factor" (some (double_to_string w.zoom_factor))
              (not (is_one w.zoom_factor)) refl)
            (preference_switches-values is_win w.web_preferences)))

old_node_integration-false :
    (o : Option Bool) (t : Option String)
    → (old_node_integration t (or_else o true) ≡ false)
      ↔ ((o ≡ some false) × ((t ≡ none) ⊎ (t ≡ some "disable")))
old_node_integration-false o none = ground arith
old_node_integration-false o (some t) = ground (arith, eq_iff t "disable")

-- The constructor of a window turns node integration off exactly if the option is the Boolean false and
-- is given as no string other than "disable".
pub settings_of-node_integration :
    {D : Type 0} (is_absolute : String → Bool) (one : D) (options : Options D)
    → ((settings_of is_absolute one options).node_integration ≡ false) ↔ (
        (options.node_integration_bool ≡ some false)
        × ((options.node_integration_string ≡ none)
            ⊎ (options.node_integration_string ≡ some "disable")))
unfolding settings_of
settings_of-node_integration is_absolute one options =
    old_node_integration-false options.node_integration_bool options.node_integration_string

or_else-off : (o : Option Bool) (b : Bool) → b ≡ true → or_else o b ≡ not (is_off o)
or_else-off none b h = h
or_else-off (some c) b h = ground arith

abbrev pub window_waives : Option (List (String × Bool)) → Bool
window_waives none = false
window_waives (some given) = is_off (lookup "web-security" given)

window_prefs-waives :
    (o : Option (List (String × Bool))) (prefs : WebPreferences)
    → prefs.web_security_enabled ≡ true
    → (override_window_prefs o prefs).web_security_enabled ≡ not (window_waives o)
unfolding override_window_prefs
window_prefs-waives none prefs h = h
window_prefs-waives (some given) prefs h =
    or_else-off (lookup "web-security" given) prefs.web_security_enabled h

-- Who asks for no web security.
abbrev pub waives : {D : Type 0} → Option GuestInfo → Option (BrowserWindow D) → Bool
waives (some info) window = info.disable_web_security
waives none none = false
waives none (some w) = window_waives w.settings.web_preferences

page_prefs-waives :
    {D : Type 0} (guest : Option GuestInfo) (window : Option (BrowserWindow D))
    (prefs : WebPreferences)
    → prefs.web_security_enabled ≡ true
    → (page_prefs guest window prefs).web_security_enabled ≡ not (waives guest window)
page_prefs-waives (some info) window prefs h = refl
page_prefs-waives none none prefs h = h
page_prefs-waives none (some w) prefs h = window_prefs-waives w.settings.web_preferences prefs h

-- A page loses web security exactly if it is a page of the developer tools, or a guest that asks
-- for it, or else the page of a window whose preferences ask for it.
pub override_webkit_prefs-web_security :
    {D : Type 0} (contents : ℕ) (process : Process) (is_devtools : Bool)
    (windows : List (BrowserWindow D)) (managers : Managers) (prefs : WebPreferences)
    → (override_webkit_prefs contents process is_devtools windows managers
        prefs).web_security_enabled
      ≡ (not is_devtools
          && not (
              waives
                (get_info_for_process (some process) managers)
                (from_web_contents contents windows)))
unfolding override_webkit_prefs
override_webkit_prefs-web_security contents process true windows managers prefs = refl
override_webkit_prefs-web_security contents process false windows managers prefs =
    page_prefs-waives (get_info_for_process (some process) managers)
      (from_web_contents contents windows) (default_prefs prefs) refl
