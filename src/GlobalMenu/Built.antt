-- ===== src/GlobalMenu/Built.antt =====
-- The items of atom/browser/ui/views/global_menu_bar_x11.cc are at all times those of the models, and a menu that was
-- shown is that of its model.
use atom_shell.Common.{
  ℕ, zero, suc, ◌≡◌, refl, sym, ap, Bool, true, false, List, [], ◌∷◌, ◌⊎◌, inl, inr, arith,
  if◌then◌else◌,
}
use atom_shell.GlobalMenu.Items.{
  ItemType, command, check, radio, separator, submenu, ModelItem, Toolkit, Properties, DbusItems,
  no_items, menuitem, build_item, build_from, build_menu_from_model, on_submenu_show, Place, here,
  into, shown, show_at, show_each,
}
use mathlib.Core.Path.{subst}

abbrev pub is_submenu : ItemType → Bool
is_submenu submenu = true
is_submenu other = false

-- Items that are those of a list, in order. The children of an item are absent, or those of its submenu.
abbrev pub IsBuilt : Toolkit → ℕ → ℕ → List ModelItem → DbusItems → Type 0
IsBuilt toolkit model i [] no_items = Unit
IsBuilt toolkit model i [] (menuitem item children rest) = zero ≡ suc zero
IsBuilt toolkit model i (first ∷ others) no_items = zero ≡ suc zero
IsBuilt toolkit model i (first ∷ others) (menuitem item children rest) =
    (item ≡ build_item toolkit model i first first.item_type)
    × ((children ≡ no_items)
        ⊎ ((is_submenu first.item_type ≡ true)
            × IsBuilt toolkit (toolkit.submenu_model_at model i) 0
                (toolkit.items (toolkit.submenu_model_at model i)) children))
    × IsBuilt toolkit model (suc i) others rest

-- The menu of the submenu of an item.
abbrev pub IsMenu : Toolkit → ℕ → DbusItems → Type 0
IsMenu toolkit model items = IsBuilt toolkit model 0 (toolkit.items model) items

build_from-IsBuilt :
    (toolkit : Toolkit) (model i : ℕ) (items : List ModelItem)
    → IsBuilt toolkit model i items (build_from toolkit model i items)
build_from-IsBuilt toolkit model i [] = tt
build_from-IsBuilt toolkit model i (item ∷ rest) =
    (refl, inl refl, build_from-IsBuilt toolkit model (suc i) rest)

pub build_menu_from_model-IsMenu :
    (toolkit : Toolkit) (model : ℕ)
    → IsMenu toolkit model (build_menu_from_model toolkit model no_items)
unfolding build_menu_from_model
build_menu_from_model-IsMenu toolkit model =
    build_from-IsBuilt toolkit model 0 (toolkit.items model)

-- Showing an item that was built fills a submenu and leaves another item alone.
pub shown-build_item :
    (toolkit : Toolkit) (model i : ℕ) (first : ModelItem) (children : DbusItems) (kind : ItemType)
    → let item : Properties = build_item toolkit model i first kind in
      shown toolkit item.handler item children ≡ (
        if is_submenu kind
        then build_menu_from_model toolkit (toolkit.submenu_model_at model i) no_items
        else children)
unfolding on_submenu_show
shown-build_item toolkit model i first children command = refl
shown-build_item toolkit model i first children check = refl
shown-build_item toolkit model i first children radio = refl
shown-build_item toolkit model i first children separator = refl
shown-build_item toolkit model i first children submenu = refl

abbrev pub Filled : Toolkit → ℕ → ℕ → ModelItem → DbusItems → Type 0
Filled toolkit model i first children =
    (children ≡ no_items)
    ⊎ ((is_submenu first.item_type ≡ true)
        × IsMenu toolkit (toolkit.submenu_model_at model i) children)

shown-Filled :
    (toolkit : Toolkit) (model i : ℕ) (first : ModelItem) (item : Properties) (children : DbusItems)
    → item ≡ build_item toolkit model i first first.item_type
    → Filled toolkit model i first children
    → Filled toolkit model i first (shown toolkit item.handler item children)
shown-Filled toolkit model i first item children e f =
    subst (λ p. Filled toolkit model i first (shown toolkit p.handler p children)) (sym e)
      (subst (Filled toolkit model i first)
        (sym (shown-build_item toolkit model i first children first.item_type))
        (split first.item_type refl))
  where
    split :
        (kind : ItemType)
        → kind ≡ first.item_type
        → Filled toolkit model i first (
            if is_submenu kind
            then build_menu_from_model toolkit (toolkit.submenu_model_at model i) no_items
            else children)
    split submenu k = inr (
        (
          sym (ap is_submenu k),
          build_menu_from_model-IsMenu toolkit (toolkit.submenu_model_at model i),
        ))
    split command k = f
    split check k = f
    split radio k = f
    split separator k = f

-- Whatever is shown.
pub show_at-IsBuilt :
    (toolkit : Toolkit) (place : Place) (model i : ℕ) (items : List ModelItem) (built : DbusItems)
    → IsBuilt toolkit model i items built
    → IsBuilt toolkit model i items (show_at toolkit place built)
show_at-IsBuilt toolkit place model i [] no_items b = b
show_at-IsBuilt toolkit place model i (first ∷ others) no_items b = b
show_at-IsBuilt toolkit (here zero) model i (first ∷ others) (menuitem item children rest) b =
    (b.0, shown-Filled toolkit model i first item children (b.0) (b.1), b.2)
show_at-IsBuilt toolkit (here (suc n)) model i (first ∷ others) (menuitem item children rest) b =
    (b.0, b.1, show_at-IsBuilt toolkit (here n) model (suc i) others rest (b.2))
show_at-IsBuilt toolkit (into zero place) model i (first ∷ others) (menuitem item children rest) b =
    let sub : ℕ = toolkit.submenu_model_at model i in
    (
      b.0,
      inside (λ m. show_at-IsBuilt toolkit place sub 0 (toolkit.items sub) children m) (b.1),
      b.2,
    )
  where
    inside :
        (IsMenu toolkit (toolkit.submenu_model_at model i) children
          → IsMenu toolkit (toolkit.submenu_model_at model i) (show_at toolkit place children))
        → Filled toolkit model i first children
        → Filled toolkit model i first (show_at toolkit place children)
    inside kept (inl e) = inl (ap (show_at toolkit place) e)
    inside kept (inr (s, m)) = inr ((s, kept m))
show_at-IsBuilt toolkit (into (suc n) place) model i (first ∷ others) (menuitem item children rest)
      b =
    (b.0, b.1, show_at-IsBuilt toolkit (into n place) model (suc i) others rest (b.2))
show_at-IsBuilt toolkit place model i [] (menuitem item children rest) b = ground (arith, b)

pub show_each-IsMenu :
    (toolkit : Toolkit) (places : List Place) (model : ℕ) (built : DbusItems)
    → IsMenu toolkit model built
    → IsMenu toolkit model (show_each toolkit places built)
show_each-IsMenu toolkit [] model built b = b
show_each-IsMenu toolkit (place ∷ rest) model built b =
    show_each-IsMenu toolkit rest model (show_at toolkit place built)
      (show_at-IsBuilt toolkit place model 0 (toolkit.items model) built b)
