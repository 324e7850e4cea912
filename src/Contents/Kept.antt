-- ===== src/Contents/Kept.antt =====
-- What every sequence of calls keeps of a guest of atom/browser/api/atom_api_web_contents.cc.
use atom_shell.Common.{
  ℕ, ◌≡◌, refl, Bool, true, false, not, Option, none, some, List, if◌then◌else◌, ◌&&◌, ◌≤◌, leb,
  arith, Bool-cases, inl, inr,
}
use atom_shell.Contents.Notices.{Size, is_empty, Event}
use atom_shell.Contents.Guest.{Background, Page, WebContents, is_guest, attached, emit}
use atom_shell.Contents.Operations.{
  set_auto_size, set_allow_transparency, paint, set_to_min, set_to_max, resize_view,
}
use atom_shell.Contents.Calls.{background_for, count_destroyed}

-- A guest that has its page and its host.
abbrev pub live : WebContents → Page → List Size → WebContents
live c page sizes = record c { page = some page; guest_host = some sizes; storage = true }

-- Sizes between which a view can resize itself.
abbrev pub IsRanged : Option (Size × Size) → Type 0
IsRanged none = Unit
IsRanged (some (low, high)) =
    (is_empty low ≡ false)
    × (is_empty high ≡ false)
    × (low.width ≤ high.width)
    × (low.height ≤ high.height)

abbrev pub Good : ℕ → Bool → WebContents → Page → Type 0
Good n allowed c page =
    (is_guest c ≡ true)
    × (count_destroyed c.events ≡ n)
    × (c.guest_opaque ≡ not allowed)
    × (paint (background_for allowed) page.view ≡ page.view)
    × IsRanged page.auto_resize

abbrev pub Kept : ℕ → Bool → Option WebContents → Type 0
Kept n allowed result =
    (c : WebContents) × (page : Page) × (sizes : List Size) × (result ≡ some (live c page sizes))
    × Good n allowed c page

pub Kept-if :
    (n : ℕ) (allowed b : Bool) (x y : Option WebContents)
    → Kept n allowed x
    → Kept n allowed y
    → Kept n allowed (if b then x else y)
Kept-if n allowed true x y hx hy = hx
Kept-if n allowed false x y hx hy = hy

pub some-if-Kept :
    (n : ℕ) (allowed b : Bool) (x y : WebContents)
    → Kept n allowed (some x)
    → Kept n allowed (some y)
    → Kept n allowed (some (if b then x else y))
some-if-Kept n allowed true x y hx hy = hx
some-if-Kept n allowed false x y hx hy = hy

paint-paint :
    (color : Background) (view : Option Background)
    → paint color (paint color view) ≡ paint color view
paint-paint color none = refl
paint-paint color (some b) = refl

pub transparency-Kept :
    (n : ℕ) (new old : Bool) (c : WebContents) (page : Page) (sizes : List Size)
    → Good n old c page
    → Kept n new (set_allow_transparency new (live c page sizes))
unfolding set_allow_transparency
transparency-Kept n true true c page sizes g =
    rw (g.2) ((record c { guest_opaque = false }, page, sizes, refl, (g.0, g.1, refl, g.3, g.4)))
transparency-Kept n false false c page sizes g =
    rw (g.2) ((record c { guest_opaque = true }, page, sizes, refl, (g.0, g.1, refl, g.3, g.4)))
transparency-Kept n true false c page sizes g = rw (g.2) (
    (
      record c { guest_opaque = false },
      record page { view = paint Background.transparent page.view },
      sizes,
      refl,
      (g.0, g.1, refl, paint-paint Background.transparent page.view, g.4),
    ))
transparency-Kept n false true c page sizes g = rw (g.2) (
    (
      record c { guest_opaque = true },
      record page { view = paint Background.default_color page.view },
      sizes,
      refl,
      (g.0, g.1, refl, paint-paint Background.default_color page.view, g.4),
    ))

and_not : (e a b : Bool) → (e && (not a && not b)) ≡ true → (a ≡ false) × (b ≡ false)
and_not true false false h = (refl, refl)
and_not true false true h = ground (arith, h)
and_not true true b h = ground (arith, h)
and_not false a b h = ground (arith, h)

range :
    (min_size max_size : Size) (enabled : Bool)
    → (enabled
        && (not (is_empty (set_to_min min_size max_size))
            && not (is_empty (set_to_max max_size min_size))))
      ≡ true
    → IsRanged (some (set_to_min min_size max_size, set_to_max max_size min_size))
range min_size max_size enabled u =
    let v =
      and_not enabled (is_empty (set_to_min min_size max_size))
        (is_empty (set_to_max max_size min_size)) u in
    (v.0, v.1, ordered min_size.width max_size.width, ordered min_size.height max_size.height)
  where
    ordered : (a b : ℕ) → (if leb a b then a else b) ≤ (if leb a b then b else a)
    ordered a b = ground arith

pub auto_size-Kept :
    (n : ℕ) (allowed enabled : Bool) (min_size max_size : Size) (c : WebContents) (page : Page)
    (sizes : List Size)
    → Good n allowed c page
    → Kept n allowed (set_auto_size enabled min_size max_size (live c page sizes))
unfolding set_auto_size
auto_size-Kept n allowed enabled min_size max_size c page sizes g =
    Kept-if n allowed (not usable && not c.auto_size_enabled) (some (live sized page sizes))
      (if attached c
        then resize_view (some page) (live turned page sizes)
        else some (live turned page sizes))
      (sized, page, sizes, refl, g)
      (Kept-if n allowed (attached c) (resize_view (some page) (live turned page sizes))
        (some (live turned page sizes))
        (elim (Bool-cases usable) [
          | inl u ↦ rw u (
              (
                record sized { auto_size_enabled = true },
                record page { auto_resize = some (sized.min_auto_size, sized.max_auto_size) },
                sizes,
                refl,
                (g.0, g.1, g.2, g.3, range min_size max_size enabled u),
              ))
          | inr u ↦ rw u (
              (
                emit (Event.size_changed c.element_size c.element_size)
                    (record sized { auto_size_enabled = false; guest_size = c.element_size }),
                record page { auto_resize = none },
                sizes,
                refl,
                (g.0, g.1, g.2, g.3, tt),
              ))
        ])
        (turned, page, sizes, refl, g))
  where
    sized : WebContents
    sized = record c {
      min_auto_size = set_to_min min_size max_size;
      max_auto_size = set_to_max max_size min_size;
    }

    usable : Bool
    usable = enabled && (not (is_empty sized.min_auto_size) && not (is_empty sized.max_auto_size))

    turned : WebContents
    turned = record sized { auto_size_enabled = usable }
