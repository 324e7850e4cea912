-- ===== src/Spell/Tests.antt =====
-- Runs of the spell checker. A text is its code units; a word is correct if its units ascend.
use atom_shell.Common.{
  ℕ, ◌+◌, ◌≡◌, refl, Bool, true, false, none, some, List, [], ◌∷◌, ◌++◌, length, ltb, ◌==◌,
  if◌then◌else◌, arith, not, ◌||◌, keep_if,
}
use atom_shell.Spell.Swaps.{Text, neighbour_swaps, take, swap_at, until_nul}
use atom_shell.Spell.Client.{
  Client, Word, spell_check_word, is_valid_contraction, spell_check_text, spell_check,
  request_checking_of_text, get_auto_correction_word, correction_loop, has_word_characters,
  is_empty,
}
use atom_shell.Spell.Checking.{misspellings, first, spell_check-misspellings}
use atom_shell.Spell.Correction.{is_correct, only_text, get_auto_correction_word-only}

abbrev ascends : Text → Bool
ascends [] = true
ascends (a ∷ []) = true
ascends (a ∷ b ∷ rest) = if ltb b a then false else ascends (b ∷ rest)

-- Words end at the unit 32, contractions at 39.
abbrev split_at : ℕ → ℕ → ℕ → Text → Text → List Word
split_at stop from at current [] =
    if is_empty current
    then []
    else record { word = current; word_start = from; word_length = length current } ∷ []
split_at stop from at current (a ∷ rest) =
    let ended = split_at stop (at + 1) (at + 1) [] rest in
    let more = split_at stop from (at + 1) (current ++ (a ∷ [])) rest in
    if not (a == stop)
    then more
    else if is_empty current
    then ended
    else record { word = current; word_start = from; word_length = length current } ∷ ended

abbrev client : Client
client = record {
  auto_spell_correct_turned_on = true;
  text_words = λ text. some (split_at 32 0 0 [] text);
  contraction_words = λ text. some (split_at 39 0 0 [] text);
  spell_check_function = some (λ word. some (ascends word));
  code_points = λ text. text;
  is_common = λ c. c == 32;
}

-- Three words: correct, misspelled, and a contraction of two correct ones.
abbrev text : Text
text = 70 ∷ 80 ∷ 32 ∷ 90 ∷ 80 ∷ 70 ∷ 32 ∷ 70 ∷ 39 ∷ 60 ∷ []

spell_check_text-text :
    spell_check_text client text false ≡ record { location = 3; extent = 3 } ∷ []
unfolding spell_check_text spell_check_word is_valid_contraction
spell_check_text-text = refl

request_checking_of_text-blank : request_checking_of_text client (32 ∷ 32 ∷ []) ≡ none
unfolding request_checking_of_text has_word_characters
request_checking_of_text-blank = refl

spell_check-misspellings_example :
    (request_checking_of_text client text ≡ (
      if is_empty text || not (has_word_characters client text)
      then none
      else some (misspellings client text)))
    × (spell_check client text ≡ first (misspellings client text))
spell_check-misspellings_example = spell_check-misspellings client text

get_auto_correction_word-swapped :
    get_auto_correction_word client (70 ∷ 90 ∷ 80 ∷ []) ≡ 70 ∷ 80 ∷ 90 ∷ []
unfolding get_auto_correction_word correction_loop spell_check spell_check_text take swap_at
    spell_check_word is_valid_contraction until_nul
get_auto_correction_word-swapped = refl

get_auto_correction_word-only_example :
    get_auto_correction_word client (70 ∷ 90 ∷ 80 ∷ [])
    ≡ only_text (keep_if (is_correct client) (neighbour_swaps (70 ∷ 90 ∷ 80 ∷ [])))
get_auto_correction_word-only_example =
    get_auto_correction_word-only client (70 ∷ 90 ∷ 80 ∷ []) (omega arith) (omega arith)
      (omega arith, (omega arith, (omega arith, record {})))
