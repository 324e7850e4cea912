-- ===== src/GlobalMenu/Activating.antt =====
-- What an item of atom/browser/ui/views/global_menu_bar_x11.cc activates, against the models alone.
use atom_shell.Common.{
  ℕ, ◌+◌, ◌≡◌, refl, sym, ap, ◌∙◌, none, List, [], ◌∷◌, map, ◌⊎◌, inl, inr, get_elem?, arith,
}
use atom_shell.GlobalMenu.Items.{
  Toolkit, DbusItems, no_items, build_menu_from_model, Place, here, into, show_at, show_each,
  activate_at,
}
use atom_shell.GlobalMenu.Built.{IsMenu, build_menu_from_model-IsMenu, show_each-IsMenu}
use mathlib.Core.Path.{subst}
use atom_shell.GlobalMenu.Reaching.{
  command_of, target, menus_before, child, activate_at-into, child-show_each, activate_at-here,
  Entered, child-Entered, Opened, child-Opened,
}

show_each-no_items :
    (toolkit : Toolkit) (places : List Place) → show_each toolkit places no_items ≡ no_items
show_each-no_items toolkit [] = refl
show_each-no_items toolkit (place ∷ rest) = show_each-no_items toolkit rest

zero_plus : (n : ℕ) → 0 + n ≡ n
zero_plus n = omega arith

here-target :
    (toolkit : Toolkit) (model n : ℕ) (built : DbusItems)
    → IsMenu toolkit model built
    → activate_at (here n) built ≡ target toolkit model (here n)
here-target toolkit model n built b =
    activate_at-here toolkit model 0 n (toolkit.items model) built b
    ∙ ap (λ k. command_of model k (get_elem? (toolkit.items model) n)) (zero_plus n)

activate_at-target :
    (toolkit : Toolkit) (place : Place) (model : ℕ) (built : DbusItems)
    → IsMenu toolkit model built
    → (activate_at place built ≡ none) ⊎ (activate_at place built ≡ target toolkit model place)
activate_at-target toolkit (here n) model built b = inr (here-target toolkit model n built b)
activate_at-target toolkit (into n place) model built b =
    elim (entered (child-Entered toolkit model 0 n (toolkit.items model) built b)) [
      | inl e ↦ inl (activate_at-into n place built ∙ ap (activate_at place) e)
      | inr m ↦
          elim (activate_at-target toolkit place (toolkit.submenu_model_at model n) (child n built)
            (m.1)) [
              | inl e ↦ inl (activate_at-into n place built ∙ e)
              | inr e ↦ inr (
                  activate_at-into n place built
                  ∙ e
                  ∙ sym (m.0 (target toolkit (toolkit.submenu_model_at model n) place)))
            ]
    ]
  where
    entered :
        Entered toolkit
          (toolkit.submenu_model_at model (0 + n))
          (get_elem? (toolkit.items model) n)
          (child n built)
        → Entered toolkit
            (toolkit.submenu_model_at model n)
            (get_elem? (toolkit.items model) n)
            (child n built)
    entered e =
        subst
          (λ k.
            Entered toolkit (toolkit.submenu_model_at model k) (get_elem? (toolkit.items model) n)
              (child n built))
          (zero_plus n) e

opened-target :
    (toolkit : Toolkit) (place : Place) (model : ℕ) (built : DbusItems)
    → IsMenu toolkit model built
    → activate_at place (show_each toolkit (menus_before place) built) ≡ target toolkit model place
opened-target toolkit (here n) model built b = here-target toolkit model n built b
opened-target toolkit (into n place) model built b =
    activate_at-into n place
      (show_each toolkit (map (into n) (menus_before place)) (show_at toolkit (here n) built))
    ∙ ap (activate_at place)
        (child-show_each toolkit n (menus_before place) (show_at toolkit (here n) built))
    ∙ elim (opened (child-Opened toolkit model 0 n (toolkit.items model) built b)) [
      | inl e ↦
          ap (λ t. activate_at place (show_each toolkit (menus_before place) t)) (e.0)
          ∙ ap (activate_at place) (show_each-no_items toolkit (menus_before place))
          ∙ sym (e.1 (target toolkit (toolkit.submenu_model_at model n) place))
      | inr m ↦
          opened-target toolkit place (toolkit.submenu_model_at model n)
            (child n (show_at toolkit (here n) built)) (m.1)
          ∙ sym (m.0 (target toolkit (toolkit.submenu_model_at model n) place))
    ]
  where
    opened :
        Opened toolkit
          (toolkit.submenu_model_at model (0 + n))
          (get_elem? (toolkit.items model) n)
          (child n (show_at toolkit (here n) built))
        → Opened toolkit
            (toolkit.submenu_model_at model n)
            (get_elem? (toolkit.items model) n)
            (child n (show_at toolkit (here n) built))
    opened e =
        subst
          (λ k.
            Opened toolkit (toolkit.submenu_model_at model k) (get_elem? (toolkit.items model) n)
              (child n (show_at toolkit (here n) built)))
          (zero_plus n) e

-- However many menus the desktop had shown before, the item at a place activates the command that the models have at that
-- place or nothing; and once the menus on the way to the place are shown again, it activates that command, if there is one.
pub show_each-target :
    (toolkit : Toolkit) (model : ℕ) (before : List Place) (place : Place)
    → let menu : DbusItems =
        show_each toolkit before (build_menu_from_model toolkit model no_items) in
      ((activate_at place menu ≡ none) ⊎ (activate_at place menu ≡ target toolkit model place))
      × (activate_at place (show_each toolkit (menus_before place) menu)
          ≡ target toolkit model place)
show_each-target toolkit model before place =
    let b : IsMenu toolkit model
        (show_each toolkit before (build_menu_from_model toolkit model no_items)) =
      show_each-IsMenu toolkit before model (build_menu_from_model toolkit model no_items)
        (build_menu_from_model-IsMenu toolkit model) in
    (
      activate_at-target toolkit place model
          (show_each toolkit before (build_menu_from_model toolkit model no_items)) b,
      opened-target toolkit place model
          (show_each toolkit before (build_menu_from_model toolkit model no_items)) b,
    )
