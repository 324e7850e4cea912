-- ===== src/Contents/Calls.antt =====
-- The calls that a living WebContents of atom/browser/api/atom_api_web_contents.cc gets, in any order, and what was
-- asked for last.
use atom_shell.Common.{ℕ, suc, Bool, true, false, Option, none, some, List, [], ◌∷◌, String, str_eq}
use atom_shell.Common.Int.{ℤ}
use atom_shell.Contents.Notices.{Size, Event, destroyed, renderer_message, message_received, Notice}
use atom_shell.Contents.Guest.{Background, default_color, transparent, WebContents, notice}
use atom_shell.Contents.Operations.{
  with_view, set_auto_size, set_allow_transparency, will_attach, element_size_changed,
  guest_size_changed, render_view_ready, load_url, open_url_from_tab,
}

pub data Call : Type 0 where
  auto_size_set : Bool → Size → Size → Call
  transparency_set : Bool → Call
  attached_to : Option ℕ → ℤ → Call
  element_sized : Size → Call
  guest_sized : Size → Call
  -- The renderer has a new view, in the default colour, and says that it is ready.
  view_created : Call
  view_lost : Call
  url_loaded : String → Option String → Option String → Call
  url_opened : Bool → ℕ → String → Option String → Call
  noticed : Notice → Call

unfoldable pub call : (String → String → Bool) → Call → WebContents → Option WebContents
call less (auto_size_set enabled min_size max_size) c = set_auto_size enabled min_size max_size c
call less (transparency_set allow) c = set_allow_transparency allow c
call less (attached_to embedder id) c = some (will_attach embedder id c)
call less (element_sized size) c = element_size_changed size c
call less (guest_sized size) c = some (guest_size_changed size c)
call less view_created c = render_view_ready (with_view (some default_color) c.page c)
call less view_lost c = some (with_view none c.page c)
call less (url_loaded url referrer user_agent) c = load_url url referrer user_agent c
call less (url_opened prevented disposition url referrer) c =
    open_url_from_tab prevented disposition url referrer c
call less (noticed n) c = some (notice less n c)

abbrev pub and_then {ℓ κ} : {A : Type ℓ} {B : Type κ} → (A → Option B) → Option A → Option B
and_then f none = none
and_then f (some a) = f a

-- `none` once the process has ended.
unfoldable pub calls : (String → String → Bool) → List Call → WebContents → Option WebContents
calls less [] c = some c
calls less (x ∷ rest) c = and_then (calls less rest) (call less x c)

abbrev pub allowed_after : Bool → Call → Bool
allowed_after before (transparency_set allow) = allow
allowed_after before x = before

abbrev pub last_allowed : Bool → List Call → Bool
last_allowed before [] = before
last_allowed before (x ∷ rest) = last_allowed (allowed_after before x) rest

abbrev pub background_for : Bool → Background
background_for true = transparent
background_for false = default_color

-- An event that listeners of "destroyed" get: OnRendererMessage emits the name that the renderer gives.
abbrev pub is_destroyed : Event → Bool
is_destroyed destroyed = true
is_destroyed (renderer_message channel) = str_eq channel "destroyed"
is_destroyed event = false

-- How many messages of the renderer ask for an event with that name, counted from a number.
abbrev pub asked_after : ℕ → Call → ℕ
asked_after n (noticed (message_received channel)) = elim (str_eq channel "destroyed") [
  | true ↦ suc n
  | false ↦ n
]
asked_after n x = n

abbrev pub asked_destroyed : ℕ → List Call → ℕ
asked_destroyed n [] = n
asked_destroyed n (x ∷ rest) = asked_destroyed (asked_after n x) rest

-- How often "destroyed" was emitted.
abbrev pub count_destroyed : List Event → ℕ
count_destroyed [] = 0
count_destroyed (event ∷ rest) = elim (is_destroyed event) [
  | true ↦ suc (count_destroyed rest)
  | false ↦ count_destroyed rest
]
