-- ===== src/Dialogs/Answers.antt =====
-- What the dialogs of atom/browser/ui/message_box_views.cc answer, and how often.
use atom_shell.Common.{
  ℕ, zero, suc, ◌+◌, ◌<◌, ◌≡◌, refl, ap, sym, ◌∙◌, Bool, Option, none, some, List, [], ◌∷◌, length,
  String, if◌then◌else◌, arith, get_elem?, Bool-cases, inl, inr,
}
use atom_shell.Dialogs.MessageBox.{
  Toolkit, Button, MessageDialog, Ending, run_callback, quit_run_loop, no_ending, buttons_from,
  new_message_dialog, cancel_from, get_result, close, Input, escape, window_closed, pressed,
  button_pressed, accelerator_pressed, handle_input, handle_inputs, run_loop, show_message_box,
  show_message_box_with_callback,
}

-- The index of the first text that passes a test.
abbrev pub position : (String → Bool) → List String → Option ℕ
position p [] = none
position p (x ∷ xs) =
    if p x then some 0 else elim (position p xs) [ none ↦ none | some i ↦ some (suc i) ]

abbrev pub or_first : Option ℕ → ℕ
or_first none = 0
or_first (some i) = i

-- What an input chooses: its button, or "cancel" if there is one, or else the first button.
abbrev pub choice : (String → Bool) → List String → Input → ℕ
choice is_cancel texts escape = or_first (position is_cancel texts)
choice is_cancel texts window_closed = or_first (position is_cancel texts)
choice is_cancel texts (pressed button) = button.tag

-- A pressed button is one of the dialog.
abbrev pub IsOffered : List String → Input → Type 0
IsOffered texts escape = Unit
IsOffered texts window_closed = Unit
IsOffered texts (pressed button) = (i : ℕ) × (get_elem? (buttons_from 0 texts) i ≡ some button)

abbrev found_at : ℕ → Option ℕ → ℕ
found_at i none = 0
found_at i (some j) = i + j

cancel_from-position :
    (is_cancel : String → Bool) (i : ℕ) (texts : List String)
    → cancel_from is_cancel i (buttons_from i texts) ≡ found_at i (position is_cancel texts)
cancel_from-position is_cancel i [] = refl
cancel_from-position is_cancel i (text ∷ rest) = elim (Bool-cases (is_cancel text)) [
  | inl e ↦ simp e (omega arith)
  | inr e ↦ simp e (cancel_from-position is_cancel (suc i) rest ∙ shifted (position is_cancel rest))
]
  where
    shifted :
        (o : Option ℕ)
        → found_at (suc i) o ≡ found_at i (elim o [ none ↦ none | some j ↦ some (suc j) ])
    shifted none = refl
    shifted (some j) = omega arith

dismissed :
    (is_cancel : String → Bool) (texts : List String)
    → cancel_from is_cancel 0 (buttons_from 0 texts) ≡ or_first (position is_cancel texts)
dismissed is_cancel texts = cancel_from-position is_cancel 0 texts ∙ same (position is_cancel texts)
  where
    same : (o : Option ℕ) → found_at 0 o ≡ or_first o
    same none = refl
    same (some j) = omega arith

-- A dialog that nothing was pressed in yet answers the choice of an input.
answer :
    (toolkit : Toolkit) (texts : List String) (input : Input) (ending : Ending)
    (parent : Option Bool)
    → get_result toolkit
        (handle_input toolkit input (record (new_message_dialog texts parent) { ending = ending }))
      ≡ choice toolkit.is_cancel texts input
unfolding get_result handle_input new_message_dialog close button_pressed accelerator_pressed
answer toolkit texts escape run_callback parent = dismissed toolkit.is_cancel texts
answer toolkit texts escape quit_run_loop parent = dismissed toolkit.is_cancel texts
answer toolkit texts escape no_ending parent = dismissed toolkit.is_cancel texts
answer toolkit texts window_closed run_callback parent = dismissed toolkit.is_cancel texts
answer toolkit texts window_closed quit_run_loop parent = dismissed toolkit.is_cancel texts
answer toolkit texts window_closed no_ending parent = dismissed toolkit.is_cancel texts
answer toolkit texts (pressed button) run_callback parent = refl
answer toolkit texts (pressed button) quit_run_loop parent = refl
answer toolkit texts (pressed button) no_ending parent = refl

tag_lem :
    (i j : ℕ) (texts : List String) (button : Button)
    → get_elem? (buttons_from i texts) j ≡ some button
    → (button.tag ≡ i + j) × (j < length texts)
tag_lem i j [] button e = ground (arith, e)
tag_lem i zero (text ∷ rest) button e =
    (ap (λ o. elim o [ none ↦ 0 | some b ↦ b.tag ]) (sym e) ∙ omega arith, omega arith)
tag_lem i (suc j) (text ∷ rest) button e =
    (omega (arith, tag_lem (suc i) j rest button e), omega (arith, tag_lem (suc i) j rest button e))

AreWithin : ℕ → Option ℕ → Type 0
AreWithin n none = Unit
AreWithin n (some i) = i < n

position-AreWithin :
    (p : String → Bool) (texts : List String) → AreWithin (length texts) (position p texts)
unfolding AreWithin
position-AreWithin p [] = tt
position-AreWithin p (text ∷ rest) = elim (Bool-cases (p text)) [
  | inl e ↦ simp e (omega arith)
  | inr e ↦ simp e (next (position p rest) (position-AreWithin p rest))
]
  where
    next :
        (o : Option ℕ)
        → AreWithin (length rest) o
        → AreWithin (suc (length rest)) (elim o [ none ↦ none | some i ↦ some (suc i) ])
    next none h = tt
    next (some i) h = omega arith

first-lt : (n : ℕ) (o : Option ℕ) → AreWithin n o → 0 < n → or_first o < n
unfolding AreWithin
first-lt n none h positive = positive
first-lt n (some i) h positive = h

choice-lt :
    (is_cancel : String → Bool) (texts : List String) (input : Input)
    → 0 < length texts
    → IsOffered texts input
    → choice is_cancel texts input < length texts
choice-lt is_cancel texts escape some_text h =
    first-lt _ _ (position-AreWithin is_cancel texts) some_text
choice-lt is_cancel texts window_closed some_text h =
    first-lt _ _ (position-AreWithin is_cancel texts) some_text
choice-lt is_cancel texts (pressed button) some_text (i, e) =
    omega (arith, tag_lem 0 i texts button e)

module _ (toolkit : Toolkit) (texts : List String) (parent : Option Bool) where
  quits :
      (input : Input) (rest : List Input)
      → show_message_box toolkit texts parent (input ∷ rest) ≡ choice toolkit.is_cancel texts input
  unfolding show_message_box run_loop handle_input close button_pressed accelerator_pressed
  quits escape rest = answer toolkit texts escape quit_run_loop parent
  quits window_closed rest = answer toolkit texts window_closed quit_run_loop parent
  quits (pressed button) rest = answer toolkit texts (pressed button) quit_run_loop parent

-- A dialog with a callback runs it, and asks to be deleted, at each input.
callback_run :
    (toolkit : Toolkit) (input : Input) (dialog : MessageDialog)
    → dialog.ending ≡ run_callback
    → ((handle_input toolkit input dialog).ending ≡ run_callback)
      × ((handle_input toolkit input dialog).answers
          ≡ get_result toolkit (handle_input toolkit input dialog) ∷ dialog.answers)
      × ((handle_input toolkit input dialog).deletions ≡ suc dialog.deletions)
unfolding handle_input get_result close button_pressed accelerator_pressed
callback_run toolkit escape dialog e = rw e (refl, refl, refl)
callback_run toolkit window_closed dialog e = rw e (refl, refl, refl)
callback_run toolkit (pressed button) dialog e = rw e (refl, refl, refl)

runs_each :
    (toolkit : Toolkit) (inputs : List Input) (dialog : MessageDialog)
    → dialog.ending ≡ run_callback
    → (length (handle_inputs toolkit inputs dialog).answers ≡ length inputs + length dialog.answers)
      × ((handle_inputs toolkit inputs dialog).deletions ≡ length inputs + dialog.deletions)
unfolding handle_inputs
runs_each toolkit [] dialog e = (omega arith, omega arith)
runs_each toolkit (input ∷ rest) dialog e =
    let here = callback_run toolkit input dialog e in
    let after = runs_each toolkit rest (handle_input toolkit input dialog) here.0 in
    (omega (arith, after.0, ap length here.1), omega (arith, after.1, here.2))

-- Up to the deletion of a dialog with a callback, the callback is run and the dialog is asked to be deleted as often
-- as the user presses Escape, closes the window or presses a button, and not only once.
pub show_message_box-repeats :
    (toolkit : Toolkit) (texts : List String) (parent : Option Bool) (inputs : List Input)
    → (length (show_message_box_with_callback toolkit texts parent inputs).answers ≡ length inputs)
      × ((show_message_box_with_callback toolkit texts parent inputs).deletions ≡ length inputs)
unfolding show_message_box_with_callback new_message_dialog
show_message_box-repeats toolkit texts parent inputs =
    let each =
      runs_each toolkit inputs (record (new_message_dialog texts parent) { ending = run_callback })
        refl in
    (omega (arith, each.0), omega (arith, each.1))

-- A dialog with a button answers the first thing that the user does, be it Escape, closing the window or pressing one of
-- its buttons: with a callback and without one it gives the pressed button or else the first button that says
-- cancel or else the first button, always one of its buttons, and the callback is run once and the dialog deleted
-- once, if the user does nothing more before that.
pub show_message_box-choice :
    (toolkit : Toolkit) (texts : List String) (parent : Option Bool) (input : Input)
    (rest : List Input)
    → 0 < length texts
    → IsOffered texts input
    → (show_message_box toolkit texts parent (input ∷ rest) ≡ choice toolkit.is_cancel texts input)
      × ((show_message_box_with_callback toolkit texts parent (input ∷ [])).answers
          ≡ choice toolkit.is_cancel texts input ∷ [])
      × ((show_message_box_with_callback toolkit texts parent (input ∷ [])).deletions ≡ 1)
      × (choice toolkit.is_cancel texts input < length texts)
unfolding show_message_box_with_callback handle_inputs new_message_dialog
show_message_box-choice toolkit texts parent input rest some_text h = (
  quits toolkit texts parent input rest,
  answered,
  ending.2,
  choice-lt toolkit.is_cancel texts input some_text h,
)
  where
    ending :
        ((show_message_box_with_callback toolkit texts parent (input ∷ [])).ending ≡ run_callback)
        × ((show_message_box_with_callback toolkit texts parent (input ∷ [])).answers
            ≡ get_result toolkit (show_message_box_with_callback toolkit texts parent (input ∷ []))
              ∷ [])
        × ((show_message_box_with_callback toolkit texts parent (input ∷ [])).deletions ≡ 1)
    ending =
        callback_run toolkit input
          (record (new_message_dialog texts parent) { ending = run_callback }) refl

    answered :
        (show_message_box_with_callback toolkit texts parent (input ∷ [])).answers
        ≡ choice toolkit.is_cancel texts input ∷ []
    answered = ending.1 ∙ ap (λ tag. tag ∷ []) (answer toolkit texts input run_callback parent)
