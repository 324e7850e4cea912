-- ===== src/Scripts/Frames.antt =====
-- AtomRendererClient (atom/renderer/atom_renderer_client.cc). Frames and script contexts are numbers.
use atom_shell.Common.{
  ℕ, Bool, true, false, Option, none, some, List, [], ◌∷◌, ◌++◌, String, str_eq, if◌then◌else◌,
}

-- A blink::WebFrame; IsGuestFrame compares its name.
pub record Frame : Type 0 where
  pub id : ℕ
  pub unique_name : String

abbrev pub is_guest_frame : Frame → Bool
is_guest_frame frame = str_eq frame.unique_name "ATOM_SHELL_GUEST_WEB_VIEW"

-- What is done for a context: a run of the loop of node, CreateEnvironment with BindTo, and LoadEnvironment.
pub data Action : Type 0 where
  ran_message_loop : Action
  bound : ℕ → Action
  loaded : ℕ → Action

-- An environment is named by its context. `environments` are the frames and contexts that got one, in order, `uv_env`
-- that of the NodeBindings, and `actions` what was done, in order.
pub record RendererClient : Type 0 where
  pub main_frame : Option ℕ
  pub uv_env : Option ℕ
  pub environments : List (Frame × ℕ)
  pub actions : List Action

abbrev pub new_renderer_client : RendererClient
new_renderer_client = record { main_frame = none; uv_env = none; environments = []; actions = [] }

abbrev pub or_env : Option ℕ → ℕ → Option ℕ
or_env none context = some context
or_env (some env) context = some env

-- DidCreateScriptContext from RunMessageLoop on.
abbrev pub set_up : Frame → ℕ → RendererClient → RendererClient
set_up frame context client = record client {
  environments = client.environments ++ (frame, context) ∷ [];
  uv_env = or_env client.uv_env context;
  actions = client.actions ++ ran_message_loop ∷ bound context ∷ loaded context ∷ [];
}

abbrev pub set_up_main : Option ℕ → Frame → ℕ → RendererClient → RendererClient
set_up_main none frame context client =
    set_up frame context (record client { main_frame = some frame.id })
set_up_main (some main) frame context client = client

unfoldable pub did_create_script_context : Frame → ℕ → RendererClient → RendererClient
did_create_script_context frame context client =
    if is_guest_frame frame
    then set_up frame context client
    else set_up_main client.main_frame frame context client

unfoldable pub should_fork : Frame → String → Bool
should_fork frame http_method = if is_guest_frame frame then false else str_eq http_method "GET"

-- `none` leaves the plugin to Chromium, and `some none` is a plugin that is NULL.
unfoldable pub override_create_plugin : Bool → Bool → Option (Option ℕ)
override_create_plugin is_browser_plugin enables_plugins =
    if is_browser_plugin then none else if enables_plugins then none else some none

-- IsSwitchEnabled, from the value of the switch.
abbrev pub is_switch_enabled : String → Option Bool
is_switch_enabled value =
    if str_eq value "true" then some true else if str_eq value "false" then some false else none

-- The features that EnableWebRuntimeFeatures turns on or off; one without a valid switch stays as it is.
pub record Features : Type 0 where
  pub experimental_features : Bool
  pub experimental_canvas_features : Bool
  pub subpixel_font_scaling : Bool
  pub overlay_scrollbars : Bool
  pub overlay_fullscreen_video : Bool
  pub shared_worker : Bool

abbrev pub enable : Option Bool → Bool → Bool
enable none before = before
enable (some b) before = b

unfoldable pub enable_web_runtime_features : (String → String) → Features → Features
enable_web_runtime_features switch_value before = record {
  experimental_features =
      enable (is_switch_enabled (switch_value "experimental-features"))
        before.experimental_features;
  experimental_canvas_features =
      enable (is_switch_enabled (switch_value "experimental-canvas-features"))
        before.experimental_canvas_features;
  subpixel_font_scaling =
      enable (is_switch_enabled (switch_value "subpixel-font-scaling"))
        before.subpixel_font_scaling;
  overlay_scrollbars =
      enable (is_switch_enabled (switch_value "overlay-scrollbars")) before.overlay_scrollbars;
  overlay_fullscreen_video =
      enable (is_switch_enabled (switch_value "overlay-fullscreen-video"))
        before.overlay_fullscreen_video;
  shared_worker = enable (is_switch_enabled (switch_value "shared-worker")) before.shared_worker;
}
