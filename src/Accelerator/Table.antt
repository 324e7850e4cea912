-- ===== src/Accelerator/Table.antt =====
-- GenerateAcceleratorTable and TriggerAcceleratorTableCommand (atom/browser/ui/accelerator_util.cc).
-- K is ui::Accelerator with its operator<. A menu model is its items, under the number of the model.
use atom_shell.Common.{
  ℕ, ◌+◌, ◌≡◌, refl, sym, ◌∙◌, ap, Option, none, some, List, [], ◌∷◌, ◌++◌, if◌then◌else◌, arith,
}
use atom_shell.Common.Dictionary.{Key, lookup, contains, insert, lookup-insert, contains-lookup}

-- An item that is no submenu has an accelerator or none.
pub data Items (K : Type 0) : Type 0 where
  no_items : Items K
  item : Option K → Items K → Items K
  submenu : ℕ → Items K → Items K → Items K

pub record MenuItem : Type 0 where
  pub position : ℕ
  pub model : ℕ

module _ {K : Type 0} ⦃key : Key K⦄ where
  unfoldable pub generate : List (K × MenuItem) → ℕ → ℕ → Items K → List (K × MenuItem)
  generate table model i no_items = table
  generate table model i (item none rest) = generate table model (i + 1) rest
  generate table model i (item (some k) rest) =
      generate (insert k (record { position = i; model = model }) table) model (i + 1) rest
  generate table model i (submenu m items rest) =
      generate (generate table m 0 items) model (i + 1) rest

  -- The item that is activated; `none` is `return false`.
  unfoldable pub trigger : List (K × MenuItem) → K → Option MenuItem
  trigger table k = if contains k table then lookup k table else none

  -- The items of a menu with an accelerator, in the order in which they are shown.
  abbrev pub bindings : ℕ → ℕ → Items K → List (K × MenuItem)
  bindings model i no_items = []
  bindings model i (item none rest) = bindings model (i + 1) rest
  bindings model i (item (some k) rest) =
      (k, record { position = i; model = model }) ∷ bindings model (i + 1) rest
  bindings model i (submenu m items rest) = bindings m 0 items ++ bindings model (i + 1) rest

  -- The last item with the accelerator, or else the given one.
  abbrev pub last_of : K → List (K × MenuItem) → Option MenuItem → Option MenuItem
  last_of k [] o = o
  last_of k ((j, v) ∷ rest) o = last_of k rest (if key.same j k then some v else o)

  last_of-append :
      (k : K) (l r : List (K × MenuItem)) (o : Option MenuItem)
      → last_of k (l ++ r) o ≡ last_of k r (last_of k l o)
  last_of-append k [] r o = refl
  last_of-append k ((j, v) ∷ l) r o = last_of-append k l r (if key.same j k then some v else o)

  lookup-generate :
      (k : K) (table : List (K × MenuItem)) (model i : ℕ) (items : Items K)
      → lookup k (generate table model i items)
        ≡ last_of k (bindings model i items) (lookup k table)
  unfolding generate
  lookup-generate k table model i no_items = refl
  lookup-generate k table model i (item none rest) = lookup-generate k table model (i + 1) rest
  lookup-generate k table model i (item (some j) rest) =
      lookup-generate k (insert j (record { position = i; model = model }) table) model (i + 1) rest
      ∙ ap (last_of k (bindings model (i + 1) rest))
          (lookup-insert j k (record { position = i; model = model }) table)
  lookup-generate k table model i (submenu m items rest) =
      lookup-generate k (generate table m 0 items) model (i + 1) rest
      ∙ ap (last_of k (bindings model (i + 1) rest)) (lookup-generate k table m 0 items)
      ∙ sym (last_of-append k (bindings m 0 items) (bindings model (i + 1) rest) (lookup k table))

  trigger-lookup : (table : List (K × MenuItem)) (k : K) → trigger table k ≡ lookup k table
  unfolding trigger
  trigger-lookup table k = ground (arith, contains-lookup k table)

  -- The table of a menu activates, of all items of the menu and of its submenus that have the accelerator,
  -- the one that is shown last, and nothing if there is none.
  pub trigger-generate :
      (k : K) (model : ℕ) (items : Items K)
      → trigger (generate [] model 0 items) k ≡ last_of k (bindings model 0 items) none
  trigger-generate k model items =
      trigger-lookup (generate [] model 0 items) k ∙ lookup-generate k [] model 0 items
