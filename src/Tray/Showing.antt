-- ===== src/Tray/Showing.antt =====
-- What the taskbar shows of the icons of the host, also when it was made again
-- (atom/browser/ui/win/notify_icon_host.cc and atom/browser/ui/win/notify_icon.cc).
use atom_shell.Common.{
  ℕ, suc, ◌+◌, ◌%◌, ◌^◌, ◌≤◌, ◌≡◌, refl, sym, ap, ◌∙◌, Bool, true, false, Option, none, some, List,
  [], ◌∷◌, String, ◌==◌, if◌then◌else◌, arith, Bool-cases, inl, inr,
}
use mathlib.Core.Path.{subst}
use atom_shell.Tray.Icons.{
  NotifyIcon, Shell, Desktop, new_notify_icon_host, next_icon, find_icon, change_icon, remove_icon,
  warn_if_failed, create_notify_icon, set_image, set_tool_tip, set_context_menu, delete_icon,
  on_taskbar_created,
}
use atom_shell.Tray.Finding.{
  icon_of, Between, Between-push, Between-remove, Between-change, change_found, find_icon-push,
  find_icon-remove, find_icon-change,
}

-- What Shell_NotifyIcon promises: a call that returns TRUE has added the identifier with the image, or set the image of
-- it; no call changes another identifier, and a tool tip changes no image. Nothing is promised of the identifier of a
-- call that returns FALSE.
abbrev pub IsShell : Shell → Type 0
IsShell shell =
    ((id : ℕ) (image : Option ℕ) (t : shell.Taskbar)
      → (shell.nim_add id image t).0 ≡ true
      → shell.image_at (shell.nim_add id image t).1 id ≡ some image)
    × ((id : ℕ) (image : Option ℕ) (t : shell.Taskbar)
        → (shell.nim_modify_icon id image t).0 ≡ true
        → shell.image_at (shell.nim_modify_icon id image t).1 id ≡ some image)
    × ((id : ℕ) (image : Option ℕ) (t : shell.Taskbar) (j : ℕ)
        → (id == j) ≡ false
        → (shell.image_at (shell.nim_add id image t).1 j ≡ shell.image_at t j)
          × (shell.image_at (shell.nim_modify_icon id image t).1 j ≡ shell.image_at t j)
          × (shell.image_at (shell.nim_delete id t).1 j ≡ shell.image_at t j))
    × ((id : ℕ) (tip : String) (t : shell.Taskbar) (j : ℕ)
        → shell.image_at (shell.nim_modify_tip id tip t).1 j ≡ shell.image_at t j)

-- What happens to the icons; a taskbar that is made again comes with what it shows then.
pub data Step (shell : Shell) : Type 0 where
  icon_created : Step shell
  image_set : ℕ → Option ℕ → Step shell
  tool_tip_set : ℕ → String → Step shell
  context_menu_set : ℕ → Option ℕ → Step shell
  icon_deleted : ℕ → Step shell
  taskbar_created : shell.Taskbar → Step shell

module _ (shell : Shell) where
  unfoldable pub step : Step shell → Desktop shell → Desktop shell
  step icon_created d = create_notify_icon shell d
  step (image_set id image) d = set_image shell id image d
  step (tool_tip_set id tip) d = set_tool_tip shell id tip d
  step (context_menu_set id menu) d = set_context_menu shell id menu d
  step (icon_deleted id) d = delete_icon shell id d
  step (taskbar_created taskbar) d = on_taskbar_created shell taskbar d

  unfoldable pub run : List (Step shell) → Desktop shell → Desktop shell
  run [] d = d
  run (x ∷ rest) d = run rest (step x d)

  -- No icon yet.
  abbrev pub at_first : shell.Taskbar → Desktop shell
  at_first taskbar = record { host = new_notify_icon_host; taskbar = taskbar; warnings = 0 }

  -- After some steps, the taskbar made again, and further steps.
  abbrev pub recreated :
      List (Step shell) → List (Step shell) → shell.Taskbar → shell.Taskbar → Desktop shell
  recreated before after first again =
      run after (on_taskbar_created shell again (run before (at_first first)))

  -- Each icon of the list is shown with its image.
  abbrev pub Shows : List NotifyIcon → shell.Taskbar → Type 0
  Shows icons t =
      (j : ℕ) (image : Option ℕ)
      → icon_of (find_icon j icons) ≡ some image
      → shell.image_at t j ≡ some image

  -- Either a warning was logged since there were `since` of them, or the icons are shown.
  abbrev pub ShowsUnless : ℕ → ℕ → List NotifyIcon → shell.Taskbar → Type 0
  ShowsUnless since warnings icons t = (since ≤ warnings) × (warnings ≡ since → Shows icons t)

  abbrev pub Agrees : ℕ → ℕ → Desktop shell → Type 0
  Agrees since high d =
      ShowsUnless since d.warnings d.host.notify_icons d.taskbar
      × Between 3 high d.host.notify_icons
      × (2 + d.host.next_icon_id ≡ high)

  pub warned :
      (since warnings : ℕ) (result : Bool) (icons icons' : List NotifyIcon) (t t' : shell.Taskbar)
      → ShowsUnless since warnings icons t
      → (result ≡ true → Shows icons t → Shows icons' t')
      → ShowsUnless since (warn_if_failed result warnings) icons' t'
  warned since warnings true icons icons' t t' h f = (h.0, λ e. f refl (h.1 e))
  warned since warnings false icons icons' t t' h f =
      (omega (arith, h.0), λ e. absurd (omega (arith, e, h.0)))

  -- A call for one identifier.
  touched :
      (id : ℕ) (icons icons' : List NotifyIcon) (t t' : shell.Taskbar)
      → ((j : ℕ) → (id == j) ≡ false → shell.image_at t' j ≡ shell.image_at t j)
      → ((j : ℕ) → (id == j) ≡ false → icon_of (find_icon j icons') ≡ icon_of (find_icon j icons))
      → ((image : Option ℕ)
          → icon_of (find_icon id icons') ≡ some image
          → shell.image_at t' id ≡ some image)
      → Shows icons t
      → Shows icons' t'
  touched id icons icons' t t' apart kept here h j image e = elim (Bool-cases (id == j)) [
    | inl same ↦
        subst (λ j. icon_of (find_icon j icons') ≡ some image → shell.image_at t' j ≡ some image)
          (ground (arith, same)) (here image) e
    | inr other ↦ apart j other ∙ h j image (sym (kept j other) ∙ e)
  ]

  pub same : (a : ℕ) → (a == a) ≡ true
  same a = ground arith

module _ (shell : Shell) (promises : IsShell shell) where
  pub created-Agrees :
      (since high : ℕ) (d : Desktop shell)
      → high + 1 ≤ 2 ^ 32
      → Agrees shell since high d
      → next_icon d.host ≡ high
      → Agrees shell since (suc high) (create_notify_icon shell d)
  unfolding create_notify_icon
  created-Agrees since high d h a e = rw e (
      (
        warned shell since d.warnings (shell.nim_add high none d.taskbar).0 _ _ _ _ a.0 (λ ok.
            touched shell high _ _ _ _ (λ j other. (promises.2 high none d.taskbar j other).0)
              (λ j other.
                find_icon-push j 3 high d.host.notify_icons (a.1)
                ∙ ap (λ b. if b then some none else icon_of (find_icon j d.host.notify_icons))
                    other)
              (λ image f.
                promises.0 high none d.taskbar ok
                ∙ sym (
                    find_icon-push high 3 high d.host.notify_icons (a.1)
                    ∙ ap
                        (λ b. if b then some none else icon_of (find_icon high d.host.notify_icons))
                        (same shell high))
                ∙ f)),
        Between-push 3 high d.host.notify_icons (a.1),
        next d.host.next_icon_id (a.2),
      ))
    where
      next : (n : ℕ) → 2 + n ≡ high → 2 + (n + 1) % 2 ^ 32 ≡ suc high
      next n k = omega (arith, k, h)

  pub image-Agrees :
      (since high id : ℕ) (image : Option ℕ) (d : Desktop shell)
      → Agrees shell since high d
      → Agrees shell since high (set_image shell id image d)
  unfolding set_image
  image-Agrees since high id image d a = (
    warned shell since d.warnings (shell.nim_modify_icon id image d.taskbar).0 _ _ _ _ a.0 (λ ok.
        touched shell id _ _ _ _ (λ j other. (promises.2 id image d.taskbar j other).1)
          (λ j other.
            changed j
            ∙ ap
                (λ b.
                  if b
                  then icon_of (change_found with_image (find_icon j d.host.notify_icons))
                  else icon_of (find_icon j d.host.notify_icons))
                other)
          (λ other f.
            promises.1 id image d.taskbar ok
            ∙ set (find_icon id d.host.notify_icons) other (
                sym (
                  changed id
                  ∙ ap
                      (λ b.
                        if b
                        then icon_of (change_found with_image (find_icon id d.host.notify_icons))
                        else icon_of (find_icon id d.host.notify_icons))
                      (same shell id))
                ∙ f))),
    Between-change id 3 high with_image d.host.notify_icons (λ i. refl) (a.1),
    a.2,
  )
    where
      with_image : NotifyIcon → NotifyIcon
      with_image i = record i { icon = image }

      changed :
          (j : ℕ)
          → icon_of (find_icon j (change_icon id with_image d.host.notify_icons)) ≡ (
              if id == j
              then icon_of (change_found with_image (find_icon j d.host.notify_icons))
              else icon_of (find_icon j d.host.notify_icons))
      changed j = find_icon-change id j with_image d.host.notify_icons (λ i. refl)

      set :
          (o : Option NotifyIcon) (other : Option ℕ)
          → icon_of (change_found with_image o) ≡ some other
          → some image ≡ some other
      set none other f = absurd (ground (arith, f))
      set (some i) other f = f

  pub menu-Agrees :
      (since high id : ℕ) (menu : Option ℕ) (d : Desktop shell)
      → Agrees shell since high d
      → Agrees shell since high (set_context_menu shell id menu d)
  unfolding set_context_menu
  menu-Agrees since high id menu d a = (
    (a.0.0, λ e j image f. a.0.1 e j image (sym (unchanged j) ∙ f)),
    Between-change id 3 high with_menu d.host.notify_icons (λ i. refl) (a.1),
    a.2,
  )
    where
      with_menu : NotifyIcon → NotifyIcon
      with_menu i = record i { menu_model = menu }

      either :
          (b : Bool) (o : Option NotifyIcon)
          → (if b then icon_of (change_found with_menu o) else icon_of o) ≡ icon_of o
      either true none = refl
      either true (some i) = refl
      either false o = refl

      unchanged :
          (j : ℕ)
          → icon_of (find_icon j (change_icon id with_menu d.host.notify_icons))
            ≡ icon_of (find_icon j d.host.notify_icons)
      unchanged j =
          find_icon-change id j with_menu d.host.notify_icons (λ i. refl)
          ∙ either (id == j) (find_icon j d.host.notify_icons)

  pub deleted-Agrees :
      (since high id : ℕ) (d : Desktop shell)
      → Agrees shell since high d
      → Agrees shell since high (delete_icon shell id d)
  unfolding delete_icon
  deleted-Agrees since high id d a = (
    (
      a.0.0,
      λ e.
          touched shell id _ _ _ _ (λ j other. (promises.2 id none d.taskbar j other).2)
            (λ j other.
              removed j
              ∙ ap (λ b. if b then none else icon_of (find_icon j d.host.notify_icons)) other)
            (λ image f. absurd (
              ground (
                arith,
                sym (
                      removed id
                      ∙ ap (λ b. if b then none else icon_of (find_icon id d.host.notify_icons))
                          (same shell id))
                    ∙ f,
              )))
            (a.0.1 e),
    ),
    Between-remove id 3 high d.host.notify_icons (a.1),
    a.2,
  )
    where
      removed :
          (j : ℕ)
          → icon_of (find_icon j (remove_icon id d.host.notify_icons))
            ≡ (if id == j then none else icon_of (find_icon j d.host.notify_icons))
      removed j = find_icon-remove id j 3 high d.host.notify_icons (a.1)
