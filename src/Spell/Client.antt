-- ===== src/Spell/Client.antt =====
-- SpellCheckClient (atom/renderer/api/atom_api_spell_check_client.cc). A text is its UTF-16 code units. The
-- iterators over words belong to Chromium, the scripts of characters to ICU, and the check of a word is a
-- function of JavaScript.
use atom_shell.Spell.Swaps.{Text, max_auto_correct_word_size, swap_at, take, until_nul, padded}
use atom_shell.Common.{
  ℕ, zero, suc, ◌-◌, Bool, true, false, not, ◌||◌, Option, none, some, List, [], ◌∷◌, length, ltb,
  ◌==◌, if◌then◌else◌,
}

-- What GetNextWord gives.
pub record Word : Type 0 where
  pub word : Text
  pub word_start : ℕ
  pub word_length : ℕ

-- blink::WebTextCheckingResult.
pub record Misspelling : Type 0 where
  pub location : ℕ
  pub extent : ℕ

-- The words of a text by text_iterator_ and by contraction_iterator_, `none` if Initialize fails; spell_check_,
-- if it is there, with its answer if that is a Boolean; the code points of a text and whether one is of
-- the script USCRIPT_COMMON.
pub record Client : Type 0 where
  pub auto_spell_correct_turned_on : Bool
  pub text_words : Text → Option (List Word)
  pub contraction_words : Text → Option (List Word)
  pub spell_check_function : Option (Text → Option Bool)
  pub code_points : Text → List ℕ
  pub is_common : ℕ → Bool

abbrev pub is_empty : {A : Type 0} → List A → Bool
is_empty [] = true
is_empty (x ∷ xs) = false

abbrev pub boolean_or_true : Option Bool → Bool
boolean_or_true none = true
boolean_or_true (some b) = b

-- What spellCheck writes to misspelling_start and misspelling_len.
abbrev pub only_result : List Misspelling → Option Misspelling
only_result [] = none
only_result (m ∷ []) = some m
only_result (m ∷ m' ∷ rest) = none

-- misspelling_len == 0.
abbrev pub is_zero_length : Option Misspelling → Bool
is_zero_length none = true
is_zero_length (some m) = m.extent == 0

module _ (client : Client) where
  open client use {
    auto_spell_correct_turned_on, text_words, contraction_words, spell_check_function, code_points,
    is_common,
  }

  abbrev pub check_by : Option (Text → Option Bool) → Text → Bool
  check_by none word_to_check = true
  check_by (some f) word_to_check = boolean_or_true (f word_to_check)

  unfoldable pub spell_check_word : Text → Bool
  spell_check_word word_to_check = check_by spell_check_function word_to_check

  abbrev pub all_words_valid : List Word → Bool
  all_words_valid [] = true
  all_words_valid (w ∷ rest) = if not (spell_check_word w.word) then false else all_words_valid rest

  abbrev pub words_valid : Option (List Word) → Bool
  words_valid none = true
  words_valid (some words) = all_words_valid words

  unfoldable pub is_valid_contraction : Text → Bool
  is_valid_contraction contraction = words_valid (contraction_words contraction)

  -- The loop of SpellCheckText, which appends to the results.
  abbrev pub check_words : Bool → List Word → List Misspelling
  check_words stop [] = []
  check_words stop (w ∷ rest) =
      let more = check_words stop rest in
      if spell_check_word w.word
      then more
      else if is_valid_contraction w.word
      then more
      else record { location = w.word_start; extent = w.word_length } ∷ (if stop then [] else more)

  abbrev pub check_text_words : Bool → Option (List Word) → List Misspelling
  check_text_words stop none = []
  check_text_words stop (some words) = check_words stop words

  abbrev pub has_function : Option (Text → Option Bool) → Bool
  has_function none = false
  has_function (some f) = true

  unfoldable pub spell_check_text : Text → Bool → List Misspelling
  spell_check_text text stop =
      if (length text == 0) || not (has_function spell_check_function)
      then []
      else check_text_words stop (text_words text)

  -- spellCheck.
  unfoldable pub spell_check : Text → Option Misspelling
  spell_check text = only_result (spell_check_text text true)

  abbrev pub any_word_character : List ℕ → Bool
  any_word_character [] = false
  any_word_character (c ∷ rest) = if not (is_common c) then true else any_word_character rest

  unfoldable pub has_word_characters : Text → Bool
  has_word_characters text = any_word_character (code_points text)

  -- requestCheckingOfText; `none` is didCancelCheckingText.
  unfoldable pub request_checking_of_text : Text → Option (List Misspelling)
  request_checking_of_text text =
      if is_empty text || not (has_word_characters text)
      then none
      else some (spell_check_text text false)

  -- The loop of GetAutoCorrectionWord, over the rounds that are left.
  unfoldable pub correction_loop : ℕ → ℕ → ℕ → Text → Text → Text
  correction_loop word_length zero i misspelled_word autocorrect_word = autocorrect_word
  correction_loop word_length (suc rounds) i misspelled_word autocorrect_word =
      let swapped = swap_at i misspelled_word in
      elim (is_zero_length (spell_check (take word_length swapped))) [
        | true ↦ elim (is_empty autocorrect_word) [
          | true ↦
              correction_loop word_length rounds (suc i) (swap_at i swapped) (until_nul swapped)
          | false ↦ []
        ]
        | false ↦ correction_loop word_length rounds (suc i) (swap_at i swapped) autocorrect_word
      ]

  unfoldable pub get_auto_correction_word : Text → Text
  get_auto_correction_word word =
      if ltb (length word) 2 || ltb max_auto_correct_word_size (length word)
      then []
      else correction_loop (length word) (length word - 1) 0 (padded word) []

  unfoldable pub auto_correct_word : Text → Text
  auto_correct_word misspelled_word =
      if auto_spell_correct_turned_on then get_auto_correction_word misspelled_word else []
