-- ===== src/Tray/Finding.antt =====
-- Lists of icons whose identifiers increase (atom/browser/ui/win/notify_icon_host.cc).
use atom_shell.Common.{
  ℕ, suc, ◌≤◌, ◌<◌, ◌≡◌, refl, ap, true, false, Option, none, some, List, [], ◌∷◌, ◌++◌, ◌==◌,
  if◌then◌else◌, arith, Bool-cases, inl, inr,
}
use atom_shell.Tray.Icons.{NotifyIcon, new_notify_icon, find_icon, change_icon, remove_icon}

abbrev pub icon_of : Option NotifyIcon → Option (Option ℕ)
icon_of none = none
icon_of (some i) = some i.icon

-- The identifiers increase from the first bound and stay below the second one.
abbrev pub Between : ℕ → ℕ → List NotifyIcon → Type 0
Between low high [] = low ≤ high
Between low high (i ∷ rest) = (low ≤ i.icon_id) × Between (suc i.icon_id) high rest

pub find_icon-below :
    (id low high : ℕ) (icons : List NotifyIcon)
    → Between low high icons
    → id < low
    → find_icon id icons ≡ none
find_icon-below id low high [] b h = refl
find_icon-below id low high (i ∷ rest) b h =
    ground
      (arith, b.0, h, find_icon-below id (suc i.icon_id) high rest (b.1) (omega (arith, b.0, h)))

pub Between-ordered : (low high : ℕ) (icons : List NotifyIcon) → Between low high icons → low ≤ high
Between-ordered low high [] b = b
Between-ordered low high (i ∷ rest) b =
    omega (arith, b.0, Between-ordered (suc i.icon_id) high rest (b.1))

pub find_icon-above :
    (id low high : ℕ) (icons : List NotifyIcon)
    → Between low high icons
    → high ≤ id
    → find_icon id icons ≡ none
find_icon-above id low high [] b h = refl
find_icon-above id low high (i ∷ rest) b h = ground (
  arith,
  Between-ordered (suc i.icon_id) high rest (b.1),
  h,
  find_icon-above id (suc i.icon_id) high rest (b.1) h,
)

pub Between-push :
    (low high : ℕ) (icons : List NotifyIcon)
    → Between low high icons
    → Between low (suc high) (icons ++ new_notify_icon high ∷ [])
Between-push low high [] b = (b, omega arith)
Between-push low high (i ∷ rest) b = (b.0, Between-push (suc i.icon_id) high rest (b.1))

pub Between-lower :
    (low lower high : ℕ) (icons : List NotifyIcon)
    → lower ≤ low
    → Between low high icons
    → Between lower high icons
Between-lower low lower high [] h b = omega (arith, h, b)
Between-lower low lower high (i ∷ rest) h b = (omega (arith, h, b.0), b.1)

pub Between-remove :
    (id low high : ℕ) (icons : List NotifyIcon)
    → Between low high icons
    → Between low high (remove_icon id icons)
Between-remove id low high [] b = b
Between-remove id low high (i ∷ rest) b = elim (Bool-cases (i.icon_id == id)) [
  | inl e ↦ rw e (Between-lower (suc i.icon_id) low high rest (omega (arith, b.0)) (b.1))
  | inr e ↦ rw e ((b.0, Between-remove id (suc i.icon_id) high rest (b.1)))
]

pub Between-change :
    (id low high : ℕ) (f : NotifyIcon → NotifyIcon) (icons : List NotifyIcon)
    → ((i : NotifyIcon) → (f i).icon_id ≡ i.icon_id)
    → Between low high icons
    → Between low high (change_icon id f icons)
Between-change id low high f [] keeps b = b
Between-change id low high f (i ∷ rest) keeps b = elim (Bool-cases (i.icon_id == id)) [
  | inl e ↦ rw e (rw (keeps i) b)
  | inr e ↦ rw e ((b.0, Between-change id (suc i.icon_id) high f rest keeps (b.1)))
]

same_index : (a b c : ℕ) → (a == b) ≡ true → (a == c) ≡ true → (b == c) ≡ true
same_index a b c e f = ground (arith, e, f)

other_index : (a b c : ℕ) → (a == b) ≡ true → (a == c) ≡ false → (b == c) ≡ false
other_index a b c e f = ground (arith, e, f)

another_index : (a b c : ℕ) → (a == b) ≡ false → (a == c) ≡ true → (b == c) ≡ false
another_index a b c e f = ground (arith, e, f)

later_index : (a b c : ℕ) → a < b → (a == c) ≡ true → (b == c) ≡ false
later_index a b c h f = ground (arith, h, f)

-- The images of icons that were pushed, changed and removed.
pub find_icon-push :
    (id low high : ℕ) (icons : List NotifyIcon)
    → Between low high icons
    → icon_of (find_icon id (icons ++ new_notify_icon high ∷ []))
      ≡ (if high == id then some none else icon_of (find_icon id icons))
find_icon-push id low high [] b = elim (Bool-cases (high == id)) [
  | inl e ↦ rw e refl
  | inr e ↦ rw e refl
]
find_icon-push id low high (i ∷ rest) b = elim (Bool-cases (i.icon_id == id)) [
  | inl e ↦
      rw (e, later_index i.icon_id high id (Between-ordered (suc i.icon_id) high rest (b.1)) e) refl
  | inr e ↦ rw e (find_icon-push id (suc i.icon_id) high rest (b.1))
]

pub find_icon-remove :
    (id j low high : ℕ) (icons : List NotifyIcon)
    → Between low high icons
    → icon_of (find_icon j (remove_icon id icons))
      ≡ (if id == j then none else icon_of (find_icon j icons))
find_icon-remove id j low high [] b = elim (Bool-cases (id == j)) [
  | inl e ↦ rw e refl
  | inr e ↦ rw e refl
]
find_icon-remove id j low high (i ∷ rest) b = elim (Bool-cases (i.icon_id == id)) [
  | inl e ↦ elim (Bool-cases (i.icon_id == j)) [
    | inl f ↦
        rw (e, same_index i.icon_id id j e f)
          (ap icon_of (find_icon-below j (suc i.icon_id) high rest (b.1) (below f)))
    | inr f ↦ rw (e, other_index i.icon_id id j e f, f) refl
  ]
  | inr e ↦ elim (Bool-cases (i.icon_id == j)) [
    | inl f ↦ rw (e, f, another_index i.icon_id id j e f) refl
    | inr f ↦ rw (e, f) (find_icon-remove id j (suc i.icon_id) high rest (b.1))
  ]
]
  where
    below : (i.icon_id == j) ≡ true → j < suc i.icon_id
    below f = ground (arith, f)

abbrev pub change_found : (NotifyIcon → NotifyIcon) → Option NotifyIcon → Option NotifyIcon
change_found f none = none
change_found f (some i) = some (f i)

pub find_icon-change :
    (id j : ℕ) (f : NotifyIcon → NotifyIcon) (icons : List NotifyIcon)
    → ((i : NotifyIcon) → (f i).icon_id ≡ i.icon_id)
    → icon_of (find_icon j (change_icon id f icons)) ≡ (
        if id == j
        then icon_of (change_found f (find_icon j icons))
        else icon_of (find_icon j icons))
find_icon-change id j f [] keeps = elim (Bool-cases (id == j)) [
  | inl e ↦ rw e refl
  | inr e ↦ rw e refl
]
find_icon-change id j f (i ∷ rest) keeps = elim (Bool-cases (i.icon_id == id)) [
  | inl e ↦ elim (Bool-cases (i.icon_id == j)) [
    | inl g ↦ rw (e, keeps i, g, same_index i.icon_id id j e g) refl
    | inr g ↦ rw (e, keeps i, g, other_index i.icon_id id j e g) refl
  ]
  | inr e ↦ elim (Bool-cases (i.icon_id == j)) [
    | inl g ↦ rw (e, g, another_index i.icon_id id j e g) refl
    | inr g ↦ rw (e, g) (find_icon-change id j f rest keeps)
  ]
]
