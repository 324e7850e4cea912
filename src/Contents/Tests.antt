-- ===== src/Contents/Tests.antt =====
-- A guest that is made transparent, sized and destroyed.
use atom_shell.Common.{
  suc, ◌≡◌, refl, Bool, true, false, none, some, List, [], ◌∷◌, String, str_eq, ◌⊎◌,
}
use atom_shell.Common.Int.{pos}
use atom_shell.Contents.Notices.{
  Size, unique_urls_from, FaviconUrl, finished_load, message_received,
}
use atom_shell.Contents.Guest.{Page, WebContents, is_alive, destroy}
use atom_shell.Contents.Calls.{
  Call, auto_size_set, transparency_set, attached_to, element_sized, guest_sized, view_created,
  noticed, calls, last_allowed, background_for, count_destroyed, asked_destroyed,
}
use atom_shell.Contents.Kept.{IsRanged}
use atom_shell.Contents.Alive.{new_guest, calls-destroy, calls-background, calls-IsRanged}

-- "a" before everything else.
abbrev less : String → String → Bool
less a b = elim (str_eq a "a") [
  | true ↦ elim (str_eq b "a") [ true ↦ false | false ↦ true ]
  | false ↦ false
]

abbrev page : Page
page = record {
  view = none;
  auto_resize = none;
  loads = [];
  user_agent = none;
  process_id = 5;
  routing_id = 2;
}

abbrev small : Size
small = record { width = 10; height = 40 }

abbrev large : Size
large = record { width = 30; height = 20 }

abbrev inputs : List Call
inputs =
    view_created
    ∷ attached_to (some 1) (pos 4)
    ∷ transparency_set true
    ∷ element_sized large
    ∷ auto_size_set true small large
    ∷ guest_sized small
    ∷ noticed (finished_load false)
    ∷ noticed (message_received "destroyed")
    ∷ []

abbrev icon : String → Bool → FaviconUrl
icon url is_favicon = record { icon_url = url; is_favicon = is_favicon; is_valid = true }

unique_urls_from-abc :
    unique_urls_from less (icon "b" true ∷ icon "a" true ∷ icon "c" false ∷ icon "a" true ∷ []) []
    ≡ "a" ∷ "b" ∷ []
unique_urls_from-abc = refl

calls-destroy_example :
    (c : WebContents) × (d : WebContents) × (calls less inputs (new_guest none page (pos 7))
      ≡ some c)
    × (is_alive c ≡ true)
    × (count_destroyed c.events ≡ asked_destroyed 0 inputs)
    × (destroy c ≡ some d)
    × (is_alive d ≡ false)
    × (count_destroyed d.events ≡ suc (asked_destroyed 0 inputs))
    × (destroy d ≡ some d)
calls-destroy_example = calls-destroy less none page (pos 7) inputs refl refl refl

calls-background_example :
    (c : WebContents) × (after : Page) × (calls less inputs (new_guest none page (pos 7)) ≡ some c)
    × (c.page ≡ some after)
    × ((after.view ≡ none) ⊎ (after.view ≡ some (background_for (last_allowed false inputs))))
calls-background_example = calls-background less none page (pos 7) inputs refl refl refl

calls-IsRanged_example :
    (c : WebContents) × (after : Page) × (calls less inputs (new_guest none page (pos 7)) ≡ some c)
    × (c.page ≡ some after)
    × IsRanged after.auto_resize
calls-IsRanged_example = calls-IsRanged less none page (pos 7) inputs refl refl refl
