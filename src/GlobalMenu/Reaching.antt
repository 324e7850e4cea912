-- ===== src/GlobalMenu/Reaching.antt =====
-- The command at a place by the models alone, and what the items of atom/browser/ui/views/global_menu_bar_x11.cc hold
-- below an index.
use atom_shell.Common.{
  ℕ, zero, suc, ◌+◌, ◌≡◌, refl, sym, ap, ◌∙◌, Bool, true, false, Option, none, some, List, [], ◌∷◌,
  map, ◌⊎◌, inl, inr, get_elem?, arith, if◌then◌else◌,
}
use atom_shell.GlobalMenu.Items.{
  ItemType, command, check, radio, separator, submenu, ModelItem, Toolkit, Properties, DbusItems,
  no_items, menuitem, build_item, labelled, register_accelerator, Accelerator,
  build_menu_from_model, on_item_activated, Place, here, into, shown, show_at, show_each,
  activate_at, activated,
}
use atom_shell.GlobalMenu.Built.{
  is_submenu, IsBuilt, IsMenu, Filled, build_menu_from_model-IsMenu, shown-build_item,
}
use mathlib.Core.Path.{subst}

abbrev is_command : ItemType → Bool
is_command command = true
is_command check = true
is_command radio = true
is_command separator = false
is_command submenu = false

abbrev pub command_of : ℕ → ℕ → Option ModelItem → Option (ℕ × ℕ)
command_of model i none = none
command_of model i (some item) = if is_command item.item_type then some (model, i) else none

abbrev pub if_submenu : Option ModelItem → Option (ℕ × ℕ) → Option (ℕ × ℕ)
if_submenu none inner = none
if_submenu (some item) inner = if is_submenu item.item_type then inner else none

-- The command at a place, by the models: each step into a menu goes to the model of the submenu there.
abbrev pub target : Toolkit → ℕ → Place → Option (ℕ × ℕ)
target toolkit model (here n) = command_of model n (get_elem? (toolkit.items model) n)
target toolkit model (into n place) =
    if_submenu (get_elem? (toolkit.items model) n)
      (target toolkit (toolkit.submenu_model_at model n) place)

-- The menus on the way to a place, the outer ones first.
abbrev pub menus_before : Place → List Place
menus_before (here n) = []
menus_before (into n place) = here n ∷ map (into n) (menus_before place)

registered :
    (toolkit : Toolkit) (model i : ℕ) (first : ModelItem) (accelerator : Option Accelerator)
    → on_item_activated (register_accelerator toolkit accelerator (labelled toolkit model i first))
      ≡ some (model, i)
unfolding on_item_activated
registered toolkit model i first none = refl
registered toolkit model i first (some accelerator) = refl

activated-build_item :
    (toolkit : Toolkit) (model i : ℕ) (first : ModelItem) (kind : ItemType)
    → let item : Properties = build_item toolkit model i first kind in
      activated item.handler item ≡ (if is_command kind then some (model, i) else none)
unfolding on_item_activated
activated-build_item toolkit model i first command =
    registered toolkit model i first first.accelerator
activated-build_item toolkit model i first check =
    registered toolkit model i first first.accelerator
activated-build_item toolkit model i first radio =
    registered toolkit model i first first.accelerator
activated-build_item toolkit model i first separator = refl
activated-build_item toolkit model i first submenu = refl

abbrev pub child : ℕ → DbusItems → DbusItems
child n no_items = no_items
child zero (menuitem item children rest) = children
child (suc n) (menuitem item children rest) = child n rest

pub activate_at-into :
    (n : ℕ) (place : Place) (items : DbusItems)
    → activate_at (into n place) items ≡ activate_at place (child n items)
activate_at-into n place no_items = refl
activate_at-into zero place (menuitem item children rest) = refl
activate_at-into (suc n) place (menuitem item children rest) = activate_at-into n place rest

child-show_at :
    (toolkit : Toolkit) (n : ℕ) (place : Place) (items : DbusItems)
    → child n (show_at toolkit (into n place) items) ≡ show_at toolkit place (child n items)
child-show_at toolkit n place no_items = refl
child-show_at toolkit zero place (menuitem item children rest) = refl
child-show_at toolkit (suc n) place (menuitem item children rest) =
    child-show_at toolkit n place rest

pub child-show_each :
    (toolkit : Toolkit) (n : ℕ) (places : List Place) (items : DbusItems)
    → child n (show_each toolkit (map (into n) places) items)
      ≡ show_each toolkit places (child n items)
child-show_each toolkit n [] items = refl
child-show_each toolkit n (place ∷ rest) items =
    child-show_each toolkit n rest (show_at toolkit (into n place) items)
    ∙ ap (show_each toolkit rest) (child-show_at toolkit n place items)

shift : (i n : ℕ) → suc i + n ≡ i + suc n
shift i n = omega arith

pub activate_at-here :
    (toolkit : Toolkit) (model i n : ℕ) (items : List ModelItem) (built : DbusItems)
    → IsBuilt toolkit model i items built
    → activate_at (here n) built ≡ command_of model (i + n) (get_elem? items n)
activate_at-here toolkit model i n [] no_items b = refl
activate_at-here toolkit model i n [] (menuitem item children rest) b = ground (arith, b)
activate_at-here toolkit model i n (first ∷ others) no_items b = ground (arith, b)
activate_at-here toolkit model i zero (first ∷ others) (menuitem item children rest) b =
    ap (λ p. activated p.handler p) (b.0)
    ∙ activated-build_item toolkit model i first first.item_type
    ∙ ap (λ k. command_of model k (some first)) (i_plus_0 i)
  where
    i_plus_0 : (k : ℕ) → k ≡ k + 0
    i_plus_0 k = omega arith
activate_at-here toolkit model i (suc n) (first ∷ others) (menuitem item children rest) b =
    activate_at-here toolkit model (suc i) n others rest (b.2)
    ∙ ap (λ k. command_of model k (get_elem? others n)) (shift i n)

i_plus_0 : (i : ℕ) → i ≡ i + 0
i_plus_0 i = omega arith

-- What a menu has at an index: nothing to enter, or the menu of a submenu.
abbrev pub Entered : Toolkit → ℕ → Option ModelItem → DbusItems → Type 0
Entered toolkit model item children =
    (children ≡ no_items)
    ⊎ (((x : Option (ℕ × ℕ)) → if_submenu item x ≡ x) × IsMenu toolkit model children)

if_submenu-of :
    (first : ModelItem) (b : Bool)
    → is_submenu first.item_type ≡ b
    → (x : Option (ℕ × ℕ)) → if_submenu (some first) x ≡ (if b then x else none)
if_submenu-of first b e x = ap (λ k. if k then x else none) e

pub child-Entered :
    (toolkit : Toolkit) (model i n : ℕ) (items : List ModelItem) (built : DbusItems)
    → IsBuilt toolkit model i items built
    → Entered toolkit (toolkit.submenu_model_at model (i + n)) (get_elem? items n) (child n built)
child-Entered toolkit model i n [] no_items b = inl refl
child-Entered toolkit model i n [] (menuitem item children rest) b = ground (arith, b)
child-Entered toolkit model i n (first ∷ others) no_items b = ground (arith, b)
child-Entered toolkit model i zero (first ∷ others) (menuitem item children rest) b = elim (b.1) [
  | inl e ↦ inl e
  | inr f ↦ inr (
      (
        if_submenu-of first true (f.0),
        subst (λ k. IsMenu toolkit (toolkit.submenu_model_at model k) children) (i_plus_0 i) (f.1),
      ))
]
child-Entered toolkit model i (suc n) (first ∷ others) (menuitem item children rest) b =
    subst
      (λ k. Entered toolkit (toolkit.submenu_model_at model k) (get_elem? others n) (child n rest))
      (shift i n) (child-Entered toolkit model (suc i) n others rest (b.2))

-- Once it is shown, there is nothing to enter only when there is no submenu.
abbrev pub Opened : Toolkit → ℕ → Option ModelItem → DbusItems → Type 0
Opened toolkit model item children =
    ((children ≡ no_items) × ((x : Option (ℕ × ℕ)) → if_submenu item x ≡ none))
    ⊎ (((x : Option (ℕ × ℕ)) → if_submenu item x ≡ x) × IsMenu toolkit model children)

shown-Opened :
    (toolkit : Toolkit) (model i : ℕ) (first : ModelItem) (children : DbusItems) (b : Bool)
    → is_submenu first.item_type ≡ b
    → Filled toolkit model i first children
    → Opened toolkit (toolkit.submenu_model_at model i) (some first) (
        if b
        then build_menu_from_model toolkit (toolkit.submenu_model_at model i) no_items
        else children)
shown-Opened toolkit model i first children true e f = inr (
    (
      if_submenu-of first true e,
      build_menu_from_model-IsMenu toolkit (toolkit.submenu_model_at model i),
    ))
shown-Opened toolkit model i first children false e (inl f) = inl ((f, if_submenu-of first false e))
shown-Opened toolkit model i first children false e (inr f) = ground (arith, sym e ∙ f.0)

pub child-Opened :
    (toolkit : Toolkit) (model i n : ℕ) (items : List ModelItem) (built : DbusItems)
    → IsBuilt toolkit model i items built
    → Opened toolkit
        (toolkit.submenu_model_at model (i + n))
        (get_elem? items n)
        (child n (show_at toolkit (here n) built))
child-Opened toolkit model i n [] no_items b = inl ((refl, λ x. refl))
child-Opened toolkit model i n [] (menuitem item children rest) b = ground (arith, b)
child-Opened toolkit model i n (first ∷ others) no_items b = ground (arith, b)
child-Opened toolkit model i zero (first ∷ others) (menuitem item children rest) b =
    subst
      (λ k.
        Opened toolkit (toolkit.submenu_model_at model k) (some first)
          (shown toolkit item.handler item children))
      (i_plus_0 i)
      (subst (Opened toolkit (toolkit.submenu_model_at model i) (some first))
        (sym (
          ap (λ p. shown toolkit p.handler p children) (b.0)
          ∙ shown-build_item toolkit model i first children first.item_type))
        (shown-Opened toolkit model i first children (is_submenu first.item_type) refl (b.1)))
child-Opened toolkit model i (suc n) (first ∷ others) (menuitem item children rest) b =
    subst
      (λ k.
        Opened toolkit (toolkit.submenu_model_at model k) (get_elem? others n)
          (child n (show_at toolkit (here n) rest)))
      (shift i n) (child-Opened toolkit model (suc i) n others rest (b.2))
