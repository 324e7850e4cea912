-- ===== src/Tray/Recreating.antt =====
-- What the taskbar shows when it was made again, and after any steps
-- (atom/browser/ui/win/notify_icon_host.cc and atom/browser/ui/win/notify_icon.cc).
use atom_shell.Common.{
  ℕ, suc, ◌+◌, ◌%◌, ◌^◌, ◌≤◌, ◌<◌, ◌≡◌, refl, sym, ap, ◌∙◌, Bool, true, false, Option, some, List,
  [], ◌∷◌, length, ◌==◌, if◌then◌else◌, arith, Bool-cases, inl, inr,
}
use mathlib.Core.Path.{subst}
use atom_shell.Tray.Icons.{
  NotifyIcon, Shell, Desktop, find_icon, warn_if_failed, set_tool_tip, reset_icon, reset_each,
  on_taskbar_created,
}
use atom_shell.Tray.Finding.{icon_of, Between}
use atom_shell.Tray.Showing.{
  IsShell, ShowsUnless, Step, icon_created, image_set, tool_tip_set, context_menu_set, icon_deleted,
  taskbar_created, step, run, at_first, recreated, Shows, Agrees, warned, created-Agrees,
  image-Agrees, menu-Agrees, deleted-Agrees,
}

warn_if_failed-le : (result : Bool) (w : ℕ) → w ≤ warn_if_failed result w
warn_if_failed-le true w = omega arith
warn_if_failed-le false w = omega arith

-- A call without a warning succeeded.
warn_if_failed-true : (result : Bool) (w : ℕ) → warn_if_failed result w ≡ w → result ≡ true
warn_if_failed-true true w e = refl
warn_if_failed-true false w e = absurd (omega (arith, e))

module _ (shell : Shell) (promises : IsShell shell) where
  reset_icon-apart :
      (i : NotifyIcon) (d : Desktop shell) (j : ℕ)
      → (i.icon_id == j) ≡ false
      → shell.image_at (reset_icon shell i d).taskbar j ≡ shell.image_at d.taskbar j
  reset_icon-apart i d j e =
      (promises.2 i.icon_id i.icon (shell.nim_delete i.icon_id d.taskbar).1 j e).0
      ∙ (promises.2 i.icon_id i.icon d.taskbar j e).2

  -- Resetting icons leaves the host and lower identifiers alone.
  record Resets (low : ℕ) (icons : List NotifyIcon) (d d' : Desktop shell) : Type 0 where
    pub host_kept : d'.host ≡ d.host
    pub more : d.warnings ≤ d'.warnings
    pub below : (j : ℕ) → j < low → shell.image_at d'.taskbar j ≡ shell.image_at d.taskbar j
    pub shown : d'.warnings ≡ d.warnings → Shows shell icons d'.taskbar

  reset_each-Resets :
      (low high : ℕ) (icons : List NotifyIcon) (d : Desktop shell)
      → Between low high icons
      → Resets low icons d (reset_each shell icons d)
  reset_each-Resets low high [] d b = record {
    host_kept = refl;
    more = omega arith;
    below = λ j h. refl;
    shown = λ e j image f. absurd (ground (arith, f));
  }
  reset_each-Resets low high (i ∷ rest) d b =
      let r : Resets (suc i.icon_id) rest (reset_icon shell i d) (reset_each shell (i ∷ rest) d) =
        reset_each-Resets (suc i.icon_id) high rest (reset_icon shell i d) (b.1) in
      record {
        host_kept = r.host_kept;
        more = omega (arith, r.more, le);
        below = λ j h. r.below j (omega (arith, h, b.0)) ∙ reset_icon-apart i d j (lower j h);
        shown = λ e. first_or_rest r e;
      }
    where
      result : Bool
      result = (shell.nim_add i.icon_id i.icon (shell.nim_delete i.icon_id d.taskbar).1).0

      le : d.warnings ≤ (reset_icon shell i d).warnings
      le = warn_if_failed-le result d.warnings

      lower : (j : ℕ) → j < low → (i.icon_id == j) ≡ false
      lower j h = ground (arith, h, b.0)

      this : {j : ℕ} → (i.icon_id == j) ≡ true → j ≡ i.icon_id
      this here = ground (arith, here)

      lower_than : {j : ℕ} → (i.icon_id == j) ≡ true → j < suc i.icon_id
      lower_than here = ground (arith, here)

      first_or_rest :
          Resets (suc i.icon_id) rest (reset_icon shell i d) (reset_each shell (i ∷ rest) d)
          → (reset_each shell (i ∷ rest) d).warnings ≡ d.warnings
          → Shows shell (i ∷ rest) (reset_each shell (i ∷ rest) d).taskbar
      first_or_rest r e j image f =
          let kept : (reset_icon shell i d).warnings ≡ d.warnings = omega (arith, e, r.more, le) in
          elim (Bool-cases (i.icon_id == j)) [
            | inl here ↦
                r.below j (lower_than here)
                ∙ ap (shell.image_at (reset_icon shell i d).taskbar) (this here)
                ∙ promises.0 i.icon_id i.icon (shell.nim_delete i.icon_id d.taskbar).1
                    (warn_if_failed-true result d.warnings kept)
                ∙ sym (ap (λ b. icon_of (if b then some i else find_icon j rest)) here)
                ∙ f
            | inr other ↦
                r.shown (e ∙ sym kept) j image
                  (sym (ap (λ b. icon_of (if b then some i else find_icon j rest)) other) ∙ f)
          ]

  taskbar-Agrees :
      (since high : ℕ) (t : shell.Taskbar) (d : Desktop shell)
      → Agrees shell since high d
      → Agrees shell d.warnings high (on_taskbar_created shell t d)
  unfolding on_taskbar_created
  taskbar-Agrees since high t d a =
      let again : Desktop shell = reset_each shell d.host.notify_icons (record d { taskbar = t }) in
      let r : Resets 3 d.host.notify_icons (record d { taskbar = t }) again =
        reset_each-Resets 3 high d.host.notify_icons (record d { taskbar = t }) a.1 in
      subst
        (λ host.
          ShowsUnless shell d.warnings again.warnings host.notify_icons again.taskbar
          × Between 3 high host.notify_icons
          × (2 + host.next_icon_id ≡ high))
        (sym r.host_kept) ((r.more, r.shown), a.1, a.2)

  -- What was shown since an earlier time is shown since then, or there was a warning.
  earlier :
      (since w high : ℕ) (d : Desktop shell)
      → since ≤ w
      → Agrees shell w high d
      → Agrees shell since high d
  earlier since w high d h a =
      ((omega (arith, h, a.0.0), λ e. a.0.1 (omega (arith, e, h, a.0.0))), a.1, a.2)

  -- The next identifier is not above a bound.
  abbrev AgreesTo : ℕ → ℕ → Desktop shell → Type 0
  AgreesTo since most d = (high : ℕ) × (high ≤ most) × Agrees shell since high d

  step-Agrees :
      (x : Step shell) (since high : ℕ) (d : Desktop shell)
      → high + 1 ≤ 2 ^ 32
      → Agrees shell since high d
      → AgreesTo since (high + 1) (step shell x d)
  unfolding step set_tool_tip
  step-Agrees icon_created since high d h a = (
    suc high,
    omega arith,
    created-Agrees shell promises since high d h a (fits d.host.next_icon_id (a.2)),
  )
    where
      fits : (n : ℕ) → 2 + n ≡ high → (2 + n) % 2 ^ 32 ≡ high
      fits n k = omega (arith, k, h)
  step-Agrees (image_set id image) since high d h a =
      (high, omega arith, image-Agrees shell promises since high id image d a)
  step-Agrees (tool_tip_set id tip) since high d h a = (
    high,
    omega arith,
    (
      warned shell since d.warnings (shell.nim_modify_tip id tip d.taskbar).0 _ _ _ _ a.0
          (λ ok shows j image f. promises.3 id tip d.taskbar j ∙ shows j image f),
      a.1,
      a.2,
    ),
  )
  step-Agrees (context_menu_set id menu) since high d h a =
      (high, omega arith, menu-Agrees shell promises since high id menu d a)
  step-Agrees (icon_deleted id) since high d h a =
      (high, omega arith, deleted-Agrees shell promises since high id d a)
  step-Agrees (taskbar_created t) since high d h a = (
    high,
    omega arith,
    earlier since d.warnings high (on_taskbar_created shell t d) a.0.0
        (taskbar-Agrees since high t d a),
  )

  run-Agrees :
      (steps : List (Step shell)) (since high : ℕ) (d : Desktop shell)
      → high + length steps ≤ 2 ^ 32
      → Agrees shell since high d
      → AgreesTo since (high + length steps) (run shell steps d)
  unfolding run
  run-Agrees [] since high d h a = (high, omega arith, a)
  run-Agrees (x ∷ rest) since high d h a =
      let s : AgreesTo since (high + 1) (step shell x d) =
        step-Agrees x since high d (omega (arith, h)) a in
      let r : AgreesTo since (s.0 + length rest) (run shell rest (step shell x d)) =
        run-Agrees rest since s.0 (step shell x d) (omega (arith, h, s.1)) s.2 in
      (r.0, omega (arith, r.1, s.1), r.2)

  first-Agrees : (t : shell.Taskbar) → Agrees shell 0 3 (at_first shell t)
  first-Agrees t = ((omega arith, λ e j image f. absurd (ground (arith, f))), omega arith, refl)

  -- With a shell that keeps its promises, whose calls may fail: after any steps, with or without warnings, when the
  -- taskbar is made again, whatever it shows then, and after any further steps without a new warning, the taskbar has
  -- every icon of the host, with the image that the icon holds, if the steps are too few for the identifiers to repeat.
  pub run-Shows :
      (before after : List (Step shell)) (first again : shell.Taskbar) (j : ℕ) (image : Option ℕ)
      → 3 + length before + length after ≤ 2 ^ 32
      → (recreated shell before after first again).warnings
        ≡ (run shell before (at_first shell first)).warnings
      → icon_of (find_icon j (recreated shell before after first again).host.notify_icons)
        ≡ some image
      → shell.image_at (recreated shell before after first again).taskbar j ≡ some image
  run-Shows before after first again j image h quiet found =
      let b : AgreesTo 0 (3 + length before) (run shell before (at_first shell first)) =
        run-Agrees before 0 3 (at_first shell first) (omega (arith, h)) (first-Agrees first) in
      let a : AgreesTo (run shell before (at_first shell first)).warnings (b.0 + length after)
          (recreated shell before after first again) =
        run-Agrees after (run shell before (at_first shell first)).warnings b.0
          (on_taskbar_created shell again (run shell before (at_first shell first)))
          (omega (arith, h, b.1))
          (taskbar-Agrees 0 b.0 again (run shell before (at_first shell first)) b.2) in
      a.2.0.1 quiet j image found
