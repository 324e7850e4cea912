-- ===== src/Contents/Operations.antt =====
-- The operations of atom/browser/api/atom_api_web_contents.cc on the sizes, the background and the navigation of a tab.
use atom_shell.Common.{
  ℕ, Bool, true, false, not, ◌&&◌, Option, none, some, List, ◌∷◌, String, leb, ◌==◌, if◌then◌else◌,
}
use atom_shell.Common.Int.{ℤ}
use atom_shell.Contents.Notices.{Size, is_empty, size_changed, new_window, will_navigate}
use atom_shell.Contents.Guest.{
  Background, Load, Page, WebContents, is_guest, attached, emit, default_color, transparent,
}

unfoldable pub will_attach : Option ℕ → ℤ → WebContents → WebContents
will_attach embedder element_instance_id c = record c {
  embedder_web_contents = embedder;
  element_instance_id = element_instance_id;
}

abbrev pub size_contents : Size → Option (List Size) → WebContents → Option WebContents
size_contents size none c = none
size_contents size (some sizes) c = some (record c { guest_host = some (size ∷ sizes) })

unfoldable pub element_size_changed : Size → WebContents → Option WebContents
element_size_changed size c =
    let sized : WebContents = record c { element_size = size } in
    if is_empty size then some sized else size_contents size sized.guest_host sized

abbrev pub guest_size_changed_due_to_auto_size : Size → Size → WebContents → WebContents
guest_size_changed_due_to_auto_size old_size new_size c = emit (size_changed old_size new_size) c

unfoldable pub guest_size_changed : Size → WebContents → WebContents
guest_size_changed new_size c =
    if c.auto_size_enabled
    then record (guest_size_changed_due_to_auto_size c.guest_size new_size c) {
      guest_size = new_size;
    }
    else c

-- SetToMin and SetToMax.
abbrev pub set_to_min : Size → Size → Size
set_to_min a b = record {
  width = if leb a.width b.width then a.width else b.width;
  height = if leb a.height b.height then a.height else b.height;
}

abbrev pub set_to_max : Size → Size → Size
set_to_max a b = record {
  width = if leb b.width a.width then a.width else b.width;
  height = if leb b.height a.height then a.height else b.height;
}

-- The end of SetAutoSize.
abbrev pub resize_view : Option Page → WebContents → Option WebContents
resize_view none c = none
resize_view (some page) c =
    if c.auto_size_enabled
    then some (record c {
      page = some (record page { auto_resize = some (c.min_auto_size, c.max_auto_size) });
    })
    else some (
        let settled : WebContents = record c {
          page = some (record page { auto_resize = none });
          guest_size = c.element_size;
        } in
        guest_size_changed_due_to_auto_size settled.guest_size settled.element_size settled)

abbrev pub turn_auto_size : Bool → WebContents → Option WebContents
turn_auto_size enabled c =
    let turned : WebContents = record c { auto_size_enabled = enabled } in
    if not enabled && not c.auto_size_enabled
    then some c
    else if attached turned
    then resize_view turned.page turned
    else some turned

unfoldable pub set_auto_size : Bool → Size → Size → WebContents → Option WebContents
set_auto_size enabled min_size max_size c =
    let sized : WebContents = record c {
      min_auto_size = set_to_min min_size max_size;
      max_auto_size = set_to_max max_size min_size;
    } in
    turn_auto_size
      (enabled && (not (is_empty sized.min_auto_size) && not (is_empty sized.max_auto_size))) sized

abbrev pub color_of : Bool → Background
color_of true = default_color
color_of false = transparent

-- The background is set if there is a view.
abbrev pub paint : Background → Option Background → Option Background
paint color none = none
paint color (some old) = some color

abbrev pub paint_page : Option Page → WebContents → Option WebContents
paint_page none c = none
paint_page (some page) c =
    some
      (record c { page = some (record page { view = paint (color_of c.guest_opaque) page.view }) })

unfoldable pub set_allow_transparency : Bool → WebContents → Option WebContents
set_allow_transparency true c =
    if c.guest_opaque then paint_page c.page (record c { guest_opaque = false }) else some c
set_allow_transparency false c =
    if c.guest_opaque then some c else paint_page c.page (record c { guest_opaque = true })

-- A new view of the page, or none; RenderViewReady comes when there is one.
abbrev pub with_view : Option Background → Option Page → WebContents → WebContents
with_view view none c = c
with_view view (some page) c = record c { page = some (record page { view = view }) }

abbrev pub paint_view : Option Background → Page → WebContents → Option WebContents
paint_view none page c = none
paint_view (some old) page c =
    some (record c { page = some (record page { view = some (color_of c.guest_opaque) }) })

abbrev pub paint_ready : Option Page → WebContents → Option WebContents
paint_ready none c = none
paint_ready (some page) c = paint_view page.view page c

unfoldable pub render_view_ready : WebContents → Option WebContents
render_view_ready c = if is_guest c then paint_ready c.page c else some c

abbrev pub load_in : Load → Option Page → WebContents → Option WebContents
load_in load none c = none
load_in load (some page) c =
    some (record c { page = some (record page { loads = load ∷ page.loads }) })

-- CURRENT_TAB. In OpenURLFromTab `prevented` is what Emit answers for "will-navigate".
abbrev pub current_tab : ℕ
current_tab = 1

abbrev pub ask_to_load : Bool → Load → WebContents → Option WebContents
ask_to_load true load c = some c
ask_to_load false load c = load_in load c.page c

unfoldable pub open_url_from_tab :
    Bool → ℕ → String → Option String → WebContents → Option WebContents
open_url_from_tab prevented disposition url referrer c =
    if disposition == current_tab
    then ask_to_load prevented
        (record { url = url; referrer = referrer; override_user_agent = false })
        (emit (will_navigate url) c)
    else some (emit (new_window url "" disposition) c)

abbrev pub set_user_agent : Option String → Option Page → WebContents → Option WebContents
set_user_agent user_agent none c = none
set_user_agent user_agent (some page) c =
    some (record c { page = some (record page { user_agent = user_agent }) })

-- LoadURL, with the options "httpreferrer" and "useragent".
abbrev then_load : Load → Option WebContents → Option WebContents
then_load load none = none
then_load load (some c) = load_in load c.page c

unfoldable pub load_url : String → Option String → Option String → WebContents → Option WebContents
load_url url referrer none c =
    load_in (record { url = url; referrer = referrer; override_user_agent = true }) c.page c
load_url url referrer (some user_agent) c =
    then_load (record { url = url; referrer = referrer; override_user_agent = true })
      (set_user_agent (some user_agent) c.page c)
