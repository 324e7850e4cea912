-- ===== src/Renderer/Attach.antt =====
-- Guests that are added and removed (atom/browser/web_view_manager.cc).
use atom_shell.Common.{
  ℕ, ◌≡◌, refl, ◌≢◌, ◌∙◌, ap, sym, Bool, true, false, Option, none, some, List, [], ◌∷◌, ◌==◌,
  if◌then◌else◌, arith,
}
use atom_shell.Common.Dictionary.{
  Key, nat_key, pair_key, pair_same, lookup, contains, insert, erase, lookup-insert, lookup-erase,
  contains-insert, contains-lookup,
}
use atom_shell.Renderer.Guests.{
  GuestInfo, Guest, Manager, get_info, add_guest, remove_guest, first_element, contents_of,
  guest_contents, get_guest_by_instance_id,
}

-- No guest has the number, no element names it, and neither the element nor the process is in use.
pub record IsFresh (process_of : ℕ → ℕ) (g element embedder contents : ℕ) (m : Manager)
    : Type 0 where
  pub no_guest : lookup g m.guests ≡ none
  pub unnamed : first_element g m.elements ≡ none
  pub no_element : lookup (process_of embedder, element) m.elements ≡ none
  pub no_info : lookup (process_of contents) m.infos ≡ none

first_element-insert :
    (k : ℕ × ℕ) (g : ℕ) (m : List ((ℕ × ℕ) × ℕ))
    → first_element g m ≡ none
    → first_element g (insert k g m) ≡ some k
unfolding insert
first_element-insert k g [] h = ground arith
first_element-insert k g ((j, v) ∷ m) h = ground (arith, first_element-insert k g m)

first_element-other :
    (k : ℕ × ℕ) (g : ℕ) (m : List ((ℕ × ℕ) × ℕ)) → first_element g m ≡ none → lookup k m ≢ some g
first_element-other k g [] h = ground arith
first_element-other k g ((j, v) ∷ m) h = ground (arith, first_element-other k g m)

-- The WebContents of the guest that an element names.
abbrev follow : Option ℕ → List (ℕ × Guest) → Option ℕ
follow none guests = none
follow (some g) guests = contents_of (lookup g guests)

guest_contents-follow : (o : Option ℕ) (m : Manager) → guest_contents o m ≡ follow o m.guests
guest_contents-follow none m = refl
guest_contents-follow (some g) m = ground (arith, contains-lookup g m.guests)

get_guest-follow :
    (o e : ℕ) (m : Manager)
    → get_guest_by_instance_id o e m ≡ follow (lookup (o, e) m.elements) m.guests
unfolding get_guest_by_instance_id
get_guest-follow o e m =
    ground
      (arith, contains-lookup (o, e) m.elements, guest_contents-follow (lookup (o, e) m.elements) m)

follow-insert :
    (o : Option ℕ) (g : ℕ) (x : Guest) (guests : List (ℕ × Guest))
    → o ≢ some g
    → follow o (insert g x guests) ≡ follow o guests
follow-insert none g x guests h = refl
follow-insert (some j) g x guests h = ground (arith, lookup-insert g j x guests)

follow-erase :
    (o : Option ℕ) (g : ℕ) (guests : List (ℕ × Guest))
    → o ≢ some g
    → follow o (erase g guests) ≡ follow o guests
follow-erase none g guests h = refl
follow-erase (some j) g guests h = ground (arith, lookup-erase g j guests)

follow-attach :
    (o : Option ℕ) (g : ℕ) (x : Guest) (c : Bool) (guests : List (ℕ × Guest))
    → o ≢ some g
    → follow (if c then some g else o) (insert g x guests)
      ≡ (if c then some x.web_contents else follow o guests)
follow-attach o g x true guests h = ground (arith, lookup-insert g g x guests)
follow-attach o g x false guests h = follow-insert o g x guests h

remove_guest-found :
    (process_of : ℕ → ℕ) (g : ℕ) (x : Guest) (k : ℕ × ℕ) (m : Manager)
    → contains g m.guests ≡ true
    → lookup g m.guests ≡ some x
    → first_element g m.elements ≡ some k
    → remove_guest process_of g m ≡ record {
      guests = erase g m.guests;
      elements = erase k m.elements;
      infos = erase (process_of x.web_contents) m.infos;
    }
unfolding remove_guest
remove_guest-found process_of g x k m a b c = simp (a, b, c) refl

lookup-erase-insert {κ ℓ} :
    {K : Type κ} {V : Type ℓ} ⦃key : Key K⦄ (k j : K) (v : V) (m : List (K × V))
    → lookup k m ≡ none
    → lookup j (erase k (insert k v m)) ≡ lookup j m
lookup-erase-insert ⦃key⦄ k j v m h =
    ground (arith, key.same_iff k j, lookup-insert k j v m, lookup-erase k j (insert k v m))

module _ (process_of : ℕ → ℕ) (g element embedder contents : ℕ) (info : GuestInfo)
    (m : Manager) where
  abbrev pub added : Manager
  added = add_guest process_of g element embedder contents info m

  -- A new guest is found by its element and its process, and every other element and process is
  -- answered as before.
  pub add_guest-lookups :
      IsFresh process_of g element embedder contents m
      → ((o e : ℕ)
          → get_guest_by_instance_id o e added ≡ (
              if pair_same (process_of embedder, element) (o, e)
              then some contents
              else get_guest_by_instance_id o e m))
        × ((p : ℕ)
            → get_info p added ≡ (if process_of contents == p then some info else get_info p m))
  unfolding add_guest get_info
  add_guest-lookups fresh = (
    λ o e.
        get_guest-follow o e added
        ∙ ap (λ x. follow x added.guests)
            (lookup-insert (process_of embedder, element) (o, e) g m.elements)
        ∙ follow-attach (lookup (o, e) m.elements) g
            (record { web_contents = contents; embedder = embedder })
            (pair_same (process_of embedder, element) (o, e)) m.guests
            (first_element-other (o, e) g m.elements fresh.unnamed)
        ∙ ap (λ x. if pair_same (process_of embedder, element) (o, e) then some contents else x)
            (sym (get_guest-follow o e m)),
    λ p. lookup-insert (process_of contents) p info m.infos,
  )

  abbrev guest : Guest
  guest = record { web_contents = contents; embedder = embedder }

  abbrev rest : Manager
  rest = record {
    guests = erase g (insert g guest m.guests);
    elements =
        erase (process_of embedder, element) (insert (process_of embedder, element) g m.elements);
    infos = erase (process_of contents) (insert (process_of contents) info m.infos);
  }

  removed :
      IsFresh process_of g element embedder contents m → remove_guest process_of g added ≡ rest
  unfolding add_guest
  removed fresh =
      remove_guest-found process_of g guest (process_of embedder, element) added
        (ground (arith, contains-insert g g guest m.guests))
        (ground (arith, lookup-insert g g guest m.guests))
        (first_element-insert (process_of embedder, element) g m.elements fresh.unnamed)

  same_element :
      IsFresh process_of g element embedder contents m
      → (o e : ℕ) → lookup (o, e) rest.elements ≡ lookup (o, e) m.elements
  same_element fresh o e =
      lookup-erase-insert (process_of embedder, element) (o, e) g m.elements fresh.no_element

  -- Removing a guest right after it was added restores every answer.
  pub remove_guest-add_guest :
      IsFresh process_of g element embedder contents m
      → ((o e : ℕ)
          → get_guest_by_instance_id o e (remove_guest process_of g added)
            ≡ get_guest_by_instance_id o e m)
        × ((p : ℕ) → get_info p (remove_guest process_of g added) ≡ get_info p m)
  unfolding add_guest get_info
  remove_guest-add_guest fresh = (
    λ o e.
        ap (get_guest_by_instance_id o e) (removed fresh)
        ∙ get_guest-follow o e rest
        ∙ follow-erase (lookup (o, e) rest.elements) g (insert g guest m.guests) (λ h.
          first_element-other (o, e) g m.elements fresh.unnamed (sym (same_element fresh o e) ∙ h))
        ∙ follow-insert (lookup (o, e) rest.elements) g guest m.guests (λ h.
          first_element-other (o, e) g m.elements fresh.unnamed (sym (same_element fresh o e) ∙ h))
        ∙ ap (λ x. follow x m.guests) (same_element fresh o e)
        ∙ sym (get_guest-follow o e m),
    λ p.
        ap (get_info p) (removed fresh)
        ∙ lookup-erase-insert (process_of contents) p info m.infos fresh.no_info,
  )
