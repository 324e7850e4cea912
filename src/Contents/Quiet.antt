-- ===== src/Contents/Quiet.antt =====
-- How often the notices of atom/browser/api/atom_api_web_contents.cc emit "destroyed".
use atom_shell.Common.{
  ℕ, suc, ◌≡◌, refl, ap, Bool, true, false, Option, none, some, List, [], ◌∷◌, String,
  if◌then◌else◌,
}
use atom_shell.Contents.Notices.{
  Size, Event, Notice, message_added_to_console, window_asked, close_asked, view_deleted,
  process_gone, plugin_has_crashed, gpu_process_crashed, document_loaded_in_frame, finished_load,
  failed_provisional_load, failed_load, started_loading, stopped_loading, got_redirect,
  navigated_main_frame, title_was_set, favicon_updated, entry_committed, attach_done,
  message_received, events_of,
}
use atom_shell.Contents.Guest.{Page, WebContents, emit, emit_each}
use atom_shell.Contents.Calls.{is_destroyed, noticed, asked_after}
use atom_shell.Contents.Kept.{live, Good, Kept}

abbrev pub asked_from : ℕ → List Event → ℕ
asked_from n [] = n
asked_from n (event ∷ rest) =
    asked_from (elim (is_destroyed event) [ true ↦ suc n | false ↦ n ]) rest

asked_from-if :
    (n : ℕ) (b : Bool) (x y : List Event)
    → asked_from n x ≡ n
    → asked_from n y ≡ n
    → asked_from n (if b then x else y) ≡ n
asked_from-if n true x y hx hy = hx
asked_from-if n false x y hx hy = hy

pub asked_from-events_of :
    (less : String → String → Bool) (n : ℕ) (m : Notice)
    → asked_from n (events_of less m) ≡ asked_after n (noticed m)
asked_from-events_of less n m =
    elim m as (λ k. asked_from n (events_of less k) ≡ asked_after n (noticed k)) [
      | message_added_to_console level message line source ↦ refl
      | window_asked url frame_name ↦ refl
      | close_asked ↦ refl
      | view_deleted process route ↦ refl
      | process_gone ↦ refl
      | plugin_has_crashed name version ↦ refl
      | gpu_process_crashed has_crashed ↦
          asked_from-if n has_crashed (Event.gpu_crashed ∷ []) [] refl refl
      | document_loaded_in_frame has_parent ↦
          asked_from-if n has_parent [] (Event.dom_ready ∷ []) refl refl
      | finished_load has_parent ↦
          asked_from-if n has_parent (Event.did_frame_finish_load false ∷ [])
            (Event.did_frame_finish_load true ∷ Event.did_finish_load ∷ []) refl refl
      | failed_provisional_load code description ↦ refl
      | failed_load code description ↦ refl
      | started_loading ↦ refl
      | stopped_loading ↦ refl
      | got_redirect url new_url is_main_frame ↦ refl
      | navigated_main_frame is_different ↦
          asked_from-if n is_different (Event.did_navigate_to_different_page ∷ []) [] refl refl
      | title_was_set title explicit_set ↦ titled title explicit_set
      | favicon_updated urls ↦ refl
      | entry_committed url is_in_page did_replace ↦ refl
      | attach_done ↦ refl
      | message_received channel ↦ refl
    ]
  where
    titled :
        (title : Option String) (explicit_set : Bool)
        → asked_from n (events_of less (title_was_set title explicit_set)) ≡ n
    titled none explicit_set = refl
    titled (some title) explicit_set = refl

pub emit_each-Kept :
    (n : ℕ) (allowed : Bool) (events : List Event) (c : WebContents) (page : Page)
    (sizes : List Size)
    → Good n allowed c page
    → Kept (asked_from n events) allowed (some (emit_each events (live c page sizes)))
emit_each-Kept n allowed [] c page sizes g = (c, page, sizes, refl, g)
emit_each-Kept n allowed (event ∷ rest) c page sizes g =
    emit_each-Kept (elim (is_destroyed event) [ true ↦ suc n | false ↦ n ]) allowed rest
      (emit event c) page sizes
      (g.0, ap (λ k. elim (is_destroyed event) [ true ↦ suc k | false ↦ k ]) (g.1), g.2, g.3, g.4)
