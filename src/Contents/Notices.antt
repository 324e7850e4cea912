-- ===== src/Contents/Notices.antt =====
-- What atom/browser/api/atom_api_web_contents.cc emits when content notifies it. Emit is given its arguments as values;
-- a URL, a title and a channel are strings.
use atom_shell.Common.{
  ℕ, Bool, true, false, ◌==◌, Option, none, some, List, [], ◌∷◌, String, if◌then◌else◌, ◌||◌,
}
use atom_shell.Common.Int.{ℤ}

-- gfx::Size, which has no negative width or height.
pub record Size : Type 0 where
  pub width : ℕ
  pub height : ℕ

abbrev pub is_empty : Size → Bool
is_empty s = (s.width == 0) || (s.height == 0)

pub data Event : Type 0 where
  console_message : ℤ → String → ℤ → String → Event
  new_window : String → String → ℕ → Event
  close : Event
  will_navigate : String → Event
  render_view_deleted : ℕ → ℕ → Event
  crashed : Event
  plugin_crashed : String → String → Event
  gpu_crashed : Event
  dom_ready : Event
  did_frame_finish_load : Bool → Event
  did_finish_load : Event
  did_fail_load : ℤ → String → Event
  did_start_loading : Event
  did_stop_loading : Event
  did_get_redirect_request : String → String → Bool → Event
  did_navigate_to_different_page : Event
  page_title_set : String → Bool → Event
  page_favicon_updated : List String → Event
  navigation_entry_commited : String → Bool → Bool → Event
  did_attach : Event
  size_changed : Size → Size → Event
  destroyed : Event
  -- A message of the renderer, emitted under the name that it gives.
  renderer_message : String → Event

-- content::FaviconURL, with GURL::is_valid of its URL.
pub record FaviconUrl : Type 0 where
  pub icon_url : String
  pub is_favicon : Bool
  pub is_valid : Bool

-- The calls of content that do nothing but emit.
pub data Notice : Type 0 where
  message_added_to_console : ℤ → String → ℤ → String → Notice
  window_asked : String → String → Notice
  close_asked : Notice
  view_deleted : ℕ → ℕ → Notice
  process_gone : Notice
  plugin_has_crashed : String → String → Notice
  gpu_process_crashed : Bool → Notice
  document_loaded_in_frame : Bool → Notice
  finished_load : Bool → Notice
  failed_provisional_load : ℤ → String → Notice
  failed_load : ℤ → String → Notice
  started_loading : Notice
  stopped_loading : Notice
  got_redirect : String → String → Bool → Notice
  navigated_main_frame : Bool → Notice
  title_was_set : Option String → Bool → Notice
  favicon_updated : List FaviconUrl → Notice
  entry_committed : String → Bool → Bool → Notice
  attach_done : Notice
  message_received : String → Notice

-- std::set<GURL>: ordered by `less`, without repeats.
abbrev pub insert : (String → String → Bool) → String → List String → List String
insert less url [] = url ∷ []
insert less url (first ∷ rest) =
    let inserted = insert less url rest in
    if less url first
    then url ∷ first ∷ rest
    else if less first url
    then first ∷ inserted
    else first ∷ rest

abbrev pub insert_icon : (String → String → Bool) → FaviconUrl → List String → List String
insert_icon less icon urls =
    if icon.is_favicon then if icon.is_valid then insert less icon.icon_url urls else urls else urls

abbrev pub unique_urls_from : (String → String → Bool) → List FaviconUrl → List String → List String
unique_urls_from less [] urls = urls
unique_urls_from less (icon ∷ rest) urls = unique_urls_from less rest (insert_icon less icon urls)

-- NEW_FOREGROUND_TAB.
abbrev pub new_foreground_tab : ℕ
new_foreground_tab = 3

-- In the order in which they are emitted.
abbrev pub events_of : (String → String → Bool) → Notice → List Event
events_of less (message_added_to_console level message line source) =
    console_message level message line source ∷ []
events_of less (window_asked url frame_name) = new_window url frame_name new_foreground_tab ∷ []
events_of less close_asked = close ∷ []
events_of less (view_deleted process route) = render_view_deleted process route ∷ []
events_of less process_gone = crashed ∷ []
events_of less (plugin_has_crashed name version) = plugin_crashed name version ∷ []
events_of less (gpu_process_crashed has_crashed) = if has_crashed then gpu_crashed ∷ [] else []
events_of less (document_loaded_in_frame has_parent) = if has_parent then [] else dom_ready ∷ []
events_of less (finished_load has_parent) =
    if has_parent
    then did_frame_finish_load false ∷ []
    else did_frame_finish_load true ∷ did_finish_load ∷ []
events_of less (failed_provisional_load code description) = did_fail_load code description ∷ []
events_of less (failed_load code description) = did_fail_load code description ∷ []
events_of less started_loading = did_start_loading ∷ []
events_of less stopped_loading = did_stop_loading ∷ []
events_of less (got_redirect url new_url is_main_frame) =
    did_get_redirect_request url new_url is_main_frame ∷ []
events_of less (navigated_main_frame is_different) =
    if is_different then did_navigate_to_different_page ∷ [] else []
events_of less (title_was_set none explicit_set) = []
events_of less (title_was_set (some title) explicit_set) = page_title_set title explicit_set ∷ []
events_of less (favicon_updated urls) = page_favicon_updated (unique_urls_from less urls []) ∷ []
events_of less (entry_committed url is_in_page did_replace) =
    navigation_entry_commited url is_in_page did_replace ∷ []
events_of less attach_done = did_attach ∷ []
events_of less (message_received channel) = renderer_message channel ∷ []
