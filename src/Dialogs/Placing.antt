-- ===== src/Dialogs/Placing.antt =====
-- Where the buttons of a dialog of atom/browser/ui/message_box_views.cc stand.
use atom_shell.Common.{
  ℕ, suc, ◌+◌, ◌-◌, ◌*◌, ◌≤◌, ◌≡◌, ap, sym, ◌∙◌, true, false, List, [], ◌∷◌, length, leb, arith,
  leb→le, Bool-cases, inl, inr,
}
use atom_shell.Common.Int.{pos, negsuc, sub_ℕ, ◌-ℤ◌}
use atom_shell.Dialogs.MessageBox.{
  Toolkit, Button, sum_of_widths, larger, get_preferred_size, layout_buttons,
}

sub_ℕ-congr : (a b c d : ℕ) → a + d ≡ c + b → sub_ℕ a b ≡ sub_ℕ c d
sub_ℕ-congr a b c d e = elim (Bool-cases (leb b a)) [
  | inl h ↦
      let k : leb d c ≡ true = ground arith in
      let le = leb→le b a h in simp (h, k) (ap pos (omega arith))
  | inr h ↦
      let k : leb d c ≡ false = ground arith in
      let gt : a + 1 ≤ b = ground arith in simp (h, k) (ap negsuc (omega arith))
]

sub-sub : (a b c : ℕ) → sub_ℕ a b -ℤ pos c ≡ sub_ℕ a (b + c)
sub-sub a b c = elim (Bool-cases (leb b a)) [
  | inl h ↦
      let le = leb→le b a h in simp h (sub_ℕ-congr (a - b + 0) (0 + c) a (b + c) (omega arith))
  | inr h ↦
      let gt : a + 1 ≤ b = ground arith in
      simp h (sub_ℕ-congr 0 (suc (b - a - 1) + c) a (b + c) (omega arith))
]

sub-zero : (n : ℕ) → sub_ℕ n 0 ≡ pos n
sub-zero n = let fits : leb 0 n ≡ true = ground arith in simp fits (ap pos (omega arith))

-- The width of the buttons, each with a space.
abbrev spaced : Toolkit → List Button → ℕ
spaced toolkit [] = 0
spaced toolkit (button ∷ rest) =
    spaced toolkit rest + (toolkit.button_width button.text + toolkit.related_button_h_spacing)

left_edge :
    (toolkit : Toolkit) (width : ℕ) (buttons : List Button)
    → (layout_buttons toolkit width buttons).0 ≡ sub_ℕ width (spaced toolkit buttons)
unfolding layout_buttons
left_edge toolkit width [] = sym (sub-zero width)
left_edge toolkit width (button ∷ rest) =
    ap (λ x. x -ℤ pos (toolkit.button_width button.text + toolkit.related_button_h_spacing))
      (left_edge toolkit width rest)
    ∙ sub-sub width (spaced toolkit rest) _

spaced_lem :
    (toolkit : Toolkit) (buttons : List Button)
    → spaced toolkit buttons
      ≡ sum_of_widths toolkit.button_width buttons
        + toolkit.related_button_h_spacing * length buttons
spaced_lem toolkit [] = omega arith
spaced_lem toolkit (button ∷ rest) = omega (arith, spaced_lem toolkit rest)

larger-left : (a b : ℕ) → b ≤ a → larger a b ≡ a
larger-left a b h = ground arith

-- Layout puts the first button of a dialog so far left of the right edge as all buttons, each with one space, are
-- wide. If the text of the dialog is not wider than the row of buttons, then at the dialog's preferred size that is
-- one space to the left of the left edge of the dialog.
pub layout_buttons-first :
    (toolkit : Toolkit) (button : Button) (rest : List Button) (width : ℕ)
    → toolkit.contents_size.0
      ≤ sum_of_widths toolkit.button_width (button ∷ rest)
        + toolkit.related_button_h_spacing * length rest
    → ((layout_buttons toolkit width (button ∷ rest)).0
        ≡ sub_ℕ width (
            sum_of_widths toolkit.button_width (button ∷ rest)
            + toolkit.related_button_h_spacing * length (button ∷ rest)))
      × ((layout_buttons toolkit (get_preferred_size toolkit (button ∷ rest)).0 (button ∷ rest)).0
          ≡ sub_ℕ 0 toolkit.related_button_h_spacing)
unfolding get_preferred_size
layout_buttons-first toolkit button rest width narrow = (
  left_edge toolkit width (button ∷ rest) ∙ ap (sub_ℕ width) (spaced_lem toolkit (button ∷ rest)),
  left_edge toolkit preferred (button ∷ rest) ∙ sub_ℕ-congr preferred _ 0 _ balance,
)
  where
    row : ℕ
    row = sum_of_widths toolkit.button_width (button ∷ rest)

    preferred : ℕ
    preferred =
        larger (row + toolkit.related_button_h_spacing * (suc (length rest) - 1))
          toolkit.contents_size.0

    one_less : suc (length rest) - 1 ≡ length rest
    one_less = omega arith

    wide : preferred ≡ row + toolkit.related_button_h_spacing * length rest
    wide =
        ap (λ n. larger (row + toolkit.related_button_h_spacing * n) toolkit.contents_size.0)
          one_less
        ∙ larger-left _ _ narrow

    balance : preferred + toolkit.related_button_h_spacing ≡ 0 + spaced toolkit (button ∷ rest)
    balance = omega (arith, wide, spaced_lem toolkit (button ∷ rest))
