-- ===== src/Contents/Guest.antt =====
-- The state of atom/browser/api/atom_api_web_contents.h, and how atom_api_web_contents.cc creates and destroys it.
-- `none` as a result is the end of the process: a call through a NULL pointer. Listeners do not call back while an
-- event is emitted.
use atom_shell.Common.{
  ℕ, zero, suc, Bool, true, false, Option, none, some, List, [], ◌∷◌, String, if◌then◌else◌,
}
use atom_shell.Common.Int.{ℤ, pos, negsuc}
use atom_shell.Contents.Notices.{Size, Event, destroyed, render_view_deleted, Notice, events_of}

pub data Background : Type 0 where
  default_color : Background
  transparent : Background

-- LoadURLParams: what the code sets of it. The referrer is `none` when it is left empty.
pub record Load : Type 0 where
  pub url : String
  pub referrer : Option String
  pub override_user_agent : Bool

-- content::WebContents: the view of its RenderViewHost, the sizes of EnableAutoResize, what its controller was asked to
-- load, newest first, and the user agent that was set. `process_id` and `routing_id` name its RenderViewHost.
pub record Page : Type 0 where
  pub view : Option Background
  pub auto_resize : Option (Size × Size)
  pub loads : List Load
  pub user_agent : Option String
  pub process_id : ℕ
  pub routing_id : ℕ

-- `page` is web_contents(), `storage` whether storage_ is there; `guest_host` holds what SizeContents was called with,
-- newest first. `events` is what was emitted, newest first.
pub record WebContents : Type 0 where
  pub guest_instance_id : ℤ
  pub element_instance_id : ℤ
  pub guest_opaque : Bool
  pub storage : Bool
  pub page : Option Page
  pub embedder_web_contents : Option ℕ
  pub element_size : Size
  pub guest_size : Size
  pub guest_host : Option (List Size)
  pub auto_size_enabled : Bool
  pub max_auto_size : Size
  pub min_auto_size : Size
  pub events : List Event

abbrev pub no_size : Size
no_size = record { width = 0; height = 0 }

-- The constructors do not set embedder_web_contents_, which is what the memory held: the first argument.
unfoldable pub create_from : Option ℕ → Page → WebContents
create_from memory page = record {
  guest_instance_id = negsuc 0;
  element_instance_id = negsuc 0;
  guest_opaque = true;
  storage = false;
  page = some page;
  embedder_web_contents = memory;
  element_size = no_size;
  guest_size = no_size;
  guest_host = none;
  auto_size_enabled = false;
  max_auto_size = no_size;
  min_auto_size = no_size;
  events = [];
}

unfoldable pub set_guest_host : Option (List Size) → WebContents → WebContents
set_guest_host guest_host c = record c { guest_host = guest_host }

abbrev or_minus_one : Option ℤ → ℤ
or_minus_one none = negsuc 0
or_minus_one (some id) = id

abbrev is_some_true : Option Bool → Bool
is_some_true none = false
is_some_true (some b) = b

-- With the options "guestInstanceId" and "isGuest": content calls SetGuestHost when there is a guest delegate.
unfoldable pub create : Option ℕ → Page → Option ℤ → Option Bool → WebContents
create memory page guest_instance_id is_guest =
    let c : WebContents = record (create_from memory page) {
      guest_instance_id = or_minus_one guest_instance_id;
      storage = true;
    } in
    if is_some_true is_guest then set_guest_host (some []) c else c

abbrev pub is_guest_id : ℤ → Bool
is_guest_id (pos n) = true
is_guest_id (negsuc zero) = false
is_guest_id (negsuc (suc n)) = true

abbrev pub is_guest : WebContents → Bool
is_guest c = is_guest_id c.guest_instance_id

abbrev pub is_there {ℓ} : {A : Type ℓ} → Option A → Bool
is_there none = false
is_there (some a) = true

abbrev pub attached : WebContents → Bool
attached c = is_there c.embedder_web_contents

abbrev pub is_alive : WebContents → Bool
is_alive c = is_there c.page

abbrev pub emit : Event → WebContents → WebContents
emit event c = record c { events = event ∷ c.events }

abbrev pub emit_each : List Event → WebContents → WebContents
emit_each [] c = c
emit_each (event ∷ rest) c = emit_each rest (emit event c)

unfoldable pub notice : (String → String → Bool) → Notice → WebContents → WebContents
notice less n c = emit_each (events_of less n) c

-- WebContentsDestroyed, after which content has no more to observe.
abbrev pub emit_destroyed : Option Page → WebContents → Option WebContents
emit_destroyed none c = none
emit_destroyed (some page) c =
    some (emit destroyed (emit (render_view_deleted page.process_id page.routing_id) c))

unfoldable pub web_contents_destroyed : WebContents → Option WebContents
web_contents_destroyed c = emit_destroyed c.page c

-- guest_host_->WillDestroy() to the end of Destroy.
abbrev pub leave_host : Option (List Size) → WebContents → Option WebContents
leave_host none c = none
leave_host (some sizes) c = some (record c { guest_host = none; page = none; storage = false })

abbrev pub then_leave_host : Option WebContents → Option WebContents
then_leave_host none = none
then_leave_host (some c) = leave_host c.guest_host c

unfoldable pub destroy : WebContents → Option WebContents
unfolding web_contents_destroyed
destroy c = if c.storage then then_leave_host (web_contents_destroyed c) else some c
