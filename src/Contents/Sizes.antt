-- ===== src/Contents/Sizes.antt =====
-- The sizes that a guest of atom/browser/api/atom_api_web_contents.cc announces when autosize is turned off.
use atom_shell.Common.{ℕ, ◌≡◌, refl, Bool, true, false, none, some, [], ◌∷◌, String}
use atom_shell.Contents.Notices.{Size, size_changed}
use atom_shell.Contents.Guest.{Page, WebContents}
use atom_shell.Contents.Operations.{guest_size_changed, set_auto_size}
use atom_shell.Contents.Calls.{auto_size_set, guest_sized, call, calls}

-- Contents that are attached to an embedder and size themselves.
abbrev pub with_auto_size : WebContents → Page → ℕ → WebContents
with_auto_size c page embedder = record c {
  page = some page;
  embedder_web_contents = some embedder;
  auto_size_enabled = true;
}

-- When a guest that sizes itself has come to a new size, and autosize is then turned off, the first event tells the
-- change to the new size, but the second one names the size of the element as the old size too, not the size that the
-- guest had. The view no longer resizes itself.
pub calls-auto_size_off :
    (less : String → String → Bool) (c : WebContents) (page : Page) (embedder : ℕ)
    (size min_size max_size : Size)
    → (d : WebContents) × (calls less
          (guest_sized size ∷ auto_size_set false min_size max_size ∷ [])
          (with_auto_size c page embedder)
        ≡ some d)
      × (d.events
          ≡ size_changed c.element_size c.element_size ∷ size_changed c.guest_size size ∷ c.events)
      × (d.page ≡ some (record page { auto_resize = none }))
unfolding calls call guest_size_changed set_auto_size
calls-auto_size_off less c page embedder size min_size max_size = (_, refl, refl, refl)
