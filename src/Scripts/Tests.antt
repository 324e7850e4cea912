-- ===== src/Scripts/Tests.antt =====
-- A main frame, a frame in it, and a guest.
use atom_shell.Common.{ℕ, ◌≡◌, refl, true, false, none, some, List, [], ◌∷◌}
use atom_shell.Scripts.Frames.{
  Frame, new_renderer_client, did_create_script_context, should_fork, override_create_plugin,
}
use atom_shell.Scripts.Messages.{
  Message, Page, document_element_created, browser_message, did_create_document_element,
  on_browser_message, observe, observe_each,
}
use atom_shell.Scripts.Environments.{
  did_create_each, guests, others, first, first_context, did_create_each-environments,
}

abbrev plain : ℕ → Frame
plain id = record { id = id; unique_name = "" }

abbrev guest : Frame
guest = record { id = 9; unique_name = "ATOM_SHELL_GUEST_WEB_VIEW" }

abbrev contexts : List (Frame × ℕ)
contexts = (guest, 1) ∷ (plain 1, 2) ∷ (plain 2, 3) ∷ (guest, 4) ∷ []

did_create_each-contexts :
    (did_create_each contexts new_renderer_client).environments
    ≡ (guest, 1) ∷ (plain 1, 2) ∷ (guest, 4) ∷ []
unfolding did_create_each did_create_script_context
did_create_each-contexts = refl

did_create_each-environments_example :
    (guests (did_create_each contexts new_renderer_client).environments ≡ guests contexts)
    × (others (did_create_each contexts new_renderer_client).environments ≡ first (others contexts))
    × ((did_create_each contexts new_renderer_client).uv_env
        ≡ first_context (did_create_each contexts new_renderer_client).environments)
did_create_each-environments_example = did_create_each-environments contexts

should_fork-guest : should_fork guest "GET" ≡ false
unfolding should_fork
should_fork-guest = refl

override_create_plugin-other : override_create_plugin false false ≡ some none
unfolding override_create_plugin
override_create_plugin-other = refl

abbrev page : Page
page = record { has_web_view = true; has_main_frame = true; is_remote = false; has_ipc = true }

abbrev message : Message
message = record { channel = "ping"; arguments = [] }

observe_each-early :
    (observe_each
      (browser_message page message
        ∷ document_element_created none
        ∷ browser_message page message
        ∷ [])
      (record { document_created = false; zoom_level = 0; emitted = [] })).emitted
    ≡ message ∷ []
unfolding observe_each observe on_browser_message did_create_document_element
observe_each-early = refl
