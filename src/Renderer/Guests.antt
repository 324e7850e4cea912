-- ===== src/Renderer/Guests.antt =====
-- WebViewManager (atom/browser/web_view_manager.cc). Identifiers and pointers are numbers; the render
-- process that a WebContents has at the moment of a call is an argument. The lock is left out, each
-- method holds it throughout.
use atom_shell.Common.{
  ℕ, Bool, true, false, not, Option, none, some, List, [], ◌∷◌, String, ◌==◌, if◌then◌else◌,
}
use atom_shell.Common.Dictionary.{nat_key, pair_key, lookup, contains, insert, erase}

-- WebViewInfo.
pub record GuestInfo : Type 0 where
  pub guest_instance_id : ℕ
  pub info_embedder : ℕ
  pub node_integration : Bool
  pub plugins : Bool
  pub disable_web_security : Bool
  pub preload_script : String

-- WebContentsWithEmbedder.
pub record Guest : Type 0 where
  pub web_contents : ℕ
  pub embedder : ℕ

-- web_contents_embdder_map_, element_instance_id_to_guest_map_ and webview_info_map_.
pub record Manager : Type 0 where
  pub guests : List (ℕ × Guest)
  pub elements : List ((ℕ × ℕ) × ℕ)
  pub infos : List (ℕ × GuestInfo)

-- content::RenderProcessHost: its ID, and the guest manager of its browser context, if there is one.
pub record Process : Type 0 where
  pub process_id : ℕ
  pub guest_manager : Option ℕ

abbrev pub Managers : Type 0
Managers = ℕ → Manager

unfoldable pub set_manager : ℕ → Manager → Managers → Managers
set_manager c m managers = λ d. if c == d then m else managers d

unfoldable pub get_info : ℕ → Manager → Option GuestInfo
get_info guest_process_id m = lookup guest_process_id m.infos

-- `none` is a null process.
unfoldable pub get_manager_from_process : Option Process → Option ℕ
get_manager_from_process none = none
get_manager_from_process (some process) = process.guest_manager

abbrev pub info_of_manager : Option ℕ → ℕ → Managers → Option GuestInfo
info_of_manager none id managers = none
info_of_manager (some c) id managers = get_info id (managers c)

unfoldable pub get_info_for_process : Option Process → Managers → Option GuestInfo
unfolding get_manager_from_process
get_info_for_process none managers = none
get_info_for_process (some process) managers =
    info_of_manager (get_manager_from_process (some process)) process.process_id managers

abbrev pub move_info : Option GuestInfo → ℕ → ℕ → Manager → Manager
move_info none old_id new_id m = m
move_info (some info) old_id new_id m = record m {
  infos = erase old_id (insert new_id info m.infos);
}

-- The body of UpdateGuestProcessID under the lock.
unfoldable pub move_process : ℕ → ℕ → Manager → Manager
move_process old_id new_id m =
    if not (contains old_id m.infos) then m else move_info (lookup old_id m.infos) old_id new_id m

abbrev pub update_in : Option ℕ → ℕ → ℕ → Managers → Managers
update_in none old_id new_id managers = managers
update_in (some c) old_id new_id managers =
    set_manager c (move_process old_id new_id (managers c)) managers

-- UpdateGuestProcessID of two processes that are not null.
unfoldable pub update_guest_process_id : Process → Process → Managers → Managers
unfolding get_manager_from_process
update_guest_process_id old_process new_process managers =
    update_in (get_manager_from_process (some old_process)) old_process.process_id
      new_process.process_id managers

-- process_of is WebContents::GetRenderProcessHost()->GetID().
unfoldable pub add_guest : (ℕ → ℕ) → ℕ → ℕ → ℕ → ℕ → GuestInfo → Manager → Manager
add_guest process_of guest_instance_id element_instance_id embedder web_contents info m = record {
  guests =
      insert guest_instance_id (record { web_contents = web_contents; embedder = embedder })
        m.guests;
  elements = insert (process_of embedder, element_instance_id) guest_instance_id m.elements;
  infos = insert (process_of web_contents) info m.infos;
}

-- The loop over element_instance_id_to_guest_map_, which stops at the first entry of the guest.
abbrev pub first_element : ℕ → List ((ℕ × ℕ) × ℕ) → Option (ℕ × ℕ)
first_element g [] = none
first_element g ((k, v) ∷ rest) = if v == g then some k else first_element g rest

abbrev pub erase_element : Option (ℕ × ℕ) → List ((ℕ × ℕ) × ℕ) → List ((ℕ × ℕ) × ℕ)
erase_element none elements = elements
erase_element (some k) elements = erase k elements

abbrev pub drop_guest : (ℕ → ℕ) → ℕ → Option Guest → Manager → Manager
drop_guest process_of g none m = m
drop_guest process_of g (some guest) m = record {
  guests = erase g m.guests;
  elements = erase_element (first_element g m.elements) m.elements;
  infos = erase (process_of guest.web_contents) m.infos;
}

unfoldable pub remove_guest : (ℕ → ℕ) → ℕ → Manager → Manager
remove_guest process_of g m =
    if not (contains g m.guests) then m else drop_guest process_of g (lookup g m.guests) m

abbrev pub contents_of : Option Guest → Option ℕ
contents_of none = none
contents_of (some guest) = some guest.web_contents

abbrev pub guest_contents : Option ℕ → Manager → Option ℕ
guest_contents none m = none
guest_contents (some g) m = if contains g m.guests then contents_of (lookup g m.guests) else none

unfoldable pub get_guest_by_instance_id : ℕ → ℕ → Manager → Option ℕ
get_guest_by_instance_id owner_process_id element_instance_id m =
    if not (contains (owner_process_id, element_instance_id) m.elements)
    then none
    else guest_contents (lookup (owner_process_id, element_instance_id) m.elements) m

-- ForEachGuest over the map; the callback answers by the WebContents. The first component is the
-- result, the second the WebContents that the callback got.
abbrev pub visit_guests : ℕ → (ℕ → Bool) → List (ℕ × Guest) → Bool × List ℕ
visit_guests embedder callback [] = (false, [])
visit_guests embedder callback ((g, guest) ∷ rest) =
    let r = visit_guests embedder callback rest in
    if guest.embedder == embedder
    then (if callback guest.web_contents
        then (true, guest.web_contents ∷ [])
        else (r.0, guest.web_contents ∷ r.1))
    else r

unfoldable pub for_each_guest : ℕ → (ℕ → Bool) → Manager → Bool × List ℕ
for_each_guest embedder callback m = visit_guests embedder callback m.guests
