-- ===== src/Contents/Alive.antt =====
-- A guest of atom/browser/api/atom_api_web_contents.cc while it lives, and how it ends.
use atom_shell.Common.{
  ℕ, suc, ◌≡◌, refl, sym, ap, Bool, true, false, Option, none, some, List, [], String, ◌⊎◌, inl,
  inr, ◌∷◌, ◌==◌,
}
use atom_shell.Common.Int.{ℤ}
use atom_shell.Contents.Notices.{Event, Size, is_empty, events_of}
use atom_shell.Contents.Guest.{
  Background, Page, WebContents, create, create_from, set_guest_host, is_guest_id, is_alive, emit,
  emit_each, destroy, web_contents_destroyed, notice, Load,
}
use atom_shell.Contents.Operations.{
  paint, will_attach, element_size_changed, guest_size_changed, render_view_ready, load_url,
  open_url_from_tab, current_tab, with_view, ask_to_load,
}
use atom_shell.Contents.Calls.{
  Call, calls, last_allowed, background_for, count_destroyed, auto_size_set, transparency_set,
  attached_to, element_sized, guest_sized, view_created, view_lost, url_loaded, url_opened, noticed,
  call, and_then, asked_after, asked_destroyed, allowed_after,
}
use atom_shell.Contents.Kept.{
  live, Kept, IsRanged, Good, Kept-if, some-if-Kept, transparency-Kept, auto_size-Kept,
}
use mathlib.Core.Path.{subst}
use atom_shell.Contents.Quiet.{emit_each-Kept, asked_from-events_of}

view-Kept :
    (n : ℕ) (allowed : Bool) (c : WebContents) (page : Page) (sizes : List Size)
    → Good n allowed c page
    → Kept n allowed (
        render_view_ready
          (with_view (some Background.default_color) (some page) (live c page sizes)))
unfolding render_view_ready
view-Kept n true c page sizes g =
    rw (g.0, g.2)
      ((
        record c { guest_opaque = false },
        record page { view = some Background.transparent },
        sizes,
        refl,
        (g.0, g.1, refl, refl, g.4),
      ))
view-Kept n false c page sizes g =
    rw (g.0, g.2)
      ((
        record c { guest_opaque = true },
        record page { view = some Background.default_color },
        sizes,
        refl,
        (g.0, g.1, refl, refl, g.4),
      ))

call-Kept :
    (less : String → String → Bool) (n : ℕ) (allowed : Bool) (x : Call) (c : WebContents)
    (page : Page) (sizes : List Size)
    → Good n allowed c page
    → Kept (asked_after n x) (allowed_after allowed x) (call less x (live c page sizes))
unfolding call notice will_attach element_size_changed guest_size_changed load_url open_url_from_tab
call-Kept less n allowed (auto_size_set enabled min_size max_size) c page sizes g =
    auto_size-Kept n allowed enabled min_size max_size c page sizes g
call-Kept less n allowed (transparency_set allow) c page sizes g =
    transparency-Kept n allow allowed c page sizes g
call-Kept less n allowed (attached_to embedder id) c page sizes g =
    (record c { embedder_web_contents = embedder; element_instance_id = id }, page, sizes, refl, g)
call-Kept less n allowed (element_sized size) c page sizes g =
    Kept-if n allowed (is_empty size) (some (live sized page sizes))
      (some (live sized page (size ∷ sizes))) (sized, page, sizes, refl, g)
      (sized, page, size ∷ sizes, refl, g)
  where
    sized : WebContents
    sized = record c { element_size = size }
call-Kept less n allowed (guest_sized size) c page sizes g =
    some-if-Kept n allowed c.auto_size_enabled (live grown page sizes) (live c page sizes)
      (grown, page, sizes, refl, g) (c, page, sizes, refl, g)
  where
    grown : WebContents
    grown = record (emit (Event.size_changed c.guest_size size) c) { guest_size = size }
call-Kept less n allowed view_created c page sizes g = view-Kept n allowed c page sizes g
call-Kept less n allowed view_lost c page sizes g =
    (c, record page { view = none }, sizes, refl, (g.0, g.1, g.2, refl, g.4))
call-Kept less n allowed (url_loaded url referrer none) c page sizes g = (
  c,
  record page {
    loads = record { url = url; referrer = referrer; override_user_agent = true } ∷ page.loads;
  },
  sizes,
  refl,
  g,
)
call-Kept less n allowed (url_loaded url referrer (some user_agent)) c page sizes g = (
  c,
  record page {
    loads = record { url = url; referrer = referrer; override_user_agent = true } ∷ page.loads;
    user_agent = some user_agent;
  },
  sizes,
  refl,
  g,
)
call-Kept less n allowed (url_opened prevented disposition url referrer) c page sizes g =
    Kept-if n allowed (disposition == current_tab)
      (ask_to_load prevented load (live asked page sizes))
      (some (live (emit (Event.new_window url "" disposition) c) page sizes)) (loaded prevented)
      (emit (Event.new_window url "" disposition) c, page, sizes, refl, g)
  where
    load : Load
    load = record { url = url; referrer = referrer; override_user_agent = false }

    asked : WebContents
    asked = emit (Event.will_navigate url) c

    loaded : (b : Bool) → Kept n allowed (ask_to_load b load (live asked page sizes))
    loaded true = (asked, page, sizes, refl, g)
    loaded false = (asked, record page { loads = load ∷ page.loads }, sizes, refl, g)
call-Kept less n allowed (noticed x) c page sizes g =
    subst (λ k. Kept k allowed (some (emit_each (events_of less x) (live c page sizes))))
      (asked_from-events_of less n x) (emit_each-Kept n allowed (events_of less x) c page sizes g)

calls-Kept :
    (less : String → String → Bool) (n : ℕ) (allowed : Bool) (xs : List Call) (c : WebContents)
    (page : Page) (sizes : List Size)
    → Good n allowed c page
    → Kept (asked_destroyed n xs) (last_allowed allowed xs) (calls less xs (live c page sizes))
unfolding calls
calls-Kept less n allowed [] c page sizes g = (c, page, sizes, refl, g)
calls-Kept less n allowed (x ∷ rest) c page sizes g =
    let k : Kept (asked_after n x) (allowed_after allowed x) (call less x (live c page sizes)) =
      call-Kept less n allowed x c page sizes g in
    subst
      (λ o.
        Kept (asked_destroyed n (x ∷ rest)) (last_allowed allowed (x ∷ rest))
          (and_then (calls less rest) o))
      (sym (k.3))
      (calls-Kept less (asked_after n x) (allowed_after allowed x) rest (k.0) (k.1) (k.2) (k.4))

-- A guest as the guest view manager creates it.
abbrev pub new_guest : Option ℕ → Page → ℤ → WebContents
new_guest memory page id = create memory page (some id) (some true)

new_guest-Kept :
    (less : String → String → Bool) (memory : Option ℕ) (page : Page) (id : ℤ) (xs : List Call)
    → is_guest_id id ≡ true
    → page.view ≡ none
    → page.auto_resize ≡ none
    → Kept (asked_destroyed 0 xs) (last_allowed false xs) (calls less xs (new_guest memory page id))
unfolding create create_from set_guest_host
new_guest-Kept less memory page id xs h e r =
    calls-Kept less 0 false xs (new_guest memory page id) page []
      (h, refl, refl, rw e refl, rw r tt)

-- A guest whose page has no view and no sizes yet survives every sequence of calls and is alive after it; "destroyed" was
-- emitted only for the messages of the renderer that name it. Destroying the guest then emits it once more and leaves
-- the guest dead, and destroying it again does nothing.
pub calls-destroy :
    (less : String → String → Bool) (memory : Option ℕ) (page : Page) (id : ℤ) (xs : List Call)
    → is_guest_id id ≡ true
    → page.view ≡ none
    → page.auto_resize ≡ none
    → (c : WebContents) × (d : WebContents) × (calls less xs (new_guest memory page id) ≡ some c)
      × (is_alive c ≡ true)
      × (count_destroyed c.events ≡ asked_destroyed 0 xs)
      × (destroy c ≡ some d)
      × (is_alive d ≡ false)
      × (count_destroyed d.events ≡ suc (asked_destroyed 0 xs))
      × (destroy d ≡ some d)
unfolding destroy web_contents_destroyed
calls-destroy less memory page id xs h e r =
    let k : Kept (asked_destroyed 0 xs) (last_allowed false xs)
        (calls less xs (new_guest memory page id)) =
      new_guest-Kept less memory page id xs h e r in
    (live k.0 k.1 k.2, ended k.0 k.1, k.3, refl, k.4.1, refl, refl, ap (λ n. suc n) (k.4.1), refl)
  where
    ended : WebContents → Page → WebContents
    ended c p =
        record (emit Event.destroyed
          (emit (Event.render_view_deleted p.process_id p.routing_id) c)) {
            guest_host = none;
            page = none;
            storage = false;
          }

-- After every sequence of calls, a guest whose page had no view and no sizes to resize between at first is alive, and the view that its page has, if it
-- has one, is transparent when transparency was allowed last, and has the default colour when it was not.
pub calls-background :
    (less : String → String → Bool) (memory : Option ℕ) (page : Page) (id : ℤ) (xs : List Call)
    → is_guest_id id ≡ true
    → page.view ≡ none
    → page.auto_resize ≡ none
    → (c : WebContents) × (after : Page) × (calls less xs (new_guest memory page id) ≡ some c)
      × (c.page ≡ some after)
      × ((after.view ≡ none) ⊎ (after.view ≡ some (background_for (last_allowed false xs))))
calls-background less memory page id xs h e r =
    let k : Kept (asked_destroyed 0 xs) (last_allowed false xs)
        (calls less xs (new_guest memory page id)) =
      new_guest-Kept less memory page id xs h e r in
    (live k.0 k.1 k.2, k.1, k.3, refl, painted (k.1.view) (k.4.3))
  where
    painted :
        (view : Option Background)
        → paint (background_for (last_allowed false xs)) view ≡ view
        → (view ≡ none) ⊎ (view ≡ some (background_for (last_allowed false xs)))
    painted none p = inl refl
    painted (some b) p = inr (sym p)

-- After every sequence of calls, the sizes between which the view of a guest resizes itself, if it does, are not empty
-- and in order. The page has no view and no such sizes at first.
pub calls-IsRanged :
    (less : String → String → Bool) (memory : Option ℕ) (page : Page) (id : ℤ) (xs : List Call)
    → is_guest_id id ≡ true
    → page.view ≡ none
    → page.auto_resize ≡ none
    → (c : WebContents) × (after : Page) × (calls less xs (new_guest memory page id) ≡ some c)
      × (c.page ≡ some after)
      × IsRanged after.auto_resize
calls-IsRanged less memory page id xs h e r =
    let k : Kept (asked_destroyed 0 xs) (last_allowed false xs)
        (calls less xs (new_guest memory page id)) =
      new_guest-Kept less memory page id xs h e r in
    (live k.0 k.1 k.2, k.1, k.3, refl, k.4.4)
