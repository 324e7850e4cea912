-- ===== src/Scripts/Messages.antt =====
-- AtomRenderViewObserver (atom/renderer/atom_render_view_observer.cc) and Send of
-- atom/renderer/api/atom_api_renderer_ipc.cc.
use atom_shell.Common.{
  ℕ, Bool, true, not, ◌||◌, Option, none, some, List, [], ◌∷◌, ◌++◌, String, if◌then◌else◌,
}

pub record Message : Type 0 where
  pub channel : String
  pub arguments : List ℕ

-- What a message of the browser finds: whether there is a web view, a main frame, whether that is remote, and whether
-- the global object has an "ipc" object.
pub record Page : Type 0 where
  pub has_web_view : Bool
  pub has_main_frame : Bool
  pub is_remote : Bool
  pub has_ipc : Bool

-- `emitted` are the calls of ipc.emit, in order.
pub record RenderViewObserver : Type 0 where
  pub document_created : Bool
  pub zoom_level : ℕ
  pub emitted : List Message

abbrev pub or_level : Option ℕ → ℕ → ℕ
or_level none before = before
or_level (some level) before = level

-- DidCreateDocumentElement; the argument is the level for --zoom-factor, if it is given and a number.
unfoldable pub did_create_document_element : Option ℕ → RenderViewObserver → RenderViewObserver
did_create_document_element zoom observer = record observer {
  document_created = true;
  zoom_level = or_level zoom observer.zoom_level;
}

unfoldable pub on_browser_message : Page → Message → RenderViewObserver → RenderViewObserver
on_browser_message page message observer =
    if not observer.document_created
    then observer
    else if not page.has_web_view
    then observer
    else if not page.has_main_frame || page.is_remote
    then observer
    else if page.has_ipc
    then record observer { emitted = observer.emitted ++ message ∷ [] }
    else observer

pub data Step : Type 0 where
  document_element_created : Option ℕ → Step
  browser_message : Page → Message → Step

unfoldable pub observe : Step → RenderViewObserver → RenderViewObserver
observe (document_element_created zoom) observer = did_create_document_element zoom observer
observe (browser_message page message) observer = on_browser_message page message observer

unfoldable pub observe_each : List Step → RenderViewObserver → RenderViewObserver
observe_each [] observer = observer
observe_each (step ∷ rest) observer = observe_each rest (observe step observer)

-- What ipc.send does, from whether there is a frame, a view, and a RenderView, and whether its Send succeeds.
pub data Sent : Type 0 where
  not_sent : Sent
  sent : Message → Sent
  thrown : String → Sent

unfoldable pub send : Bool → Bool → Message → Sent
send has_render_view succeeds message =
    if not has_render_view
    then not_sent
    else if succeeds
    then sent message
    else thrown "Unable to send AtomViewHostMsg_Message"
