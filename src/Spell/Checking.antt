-- ===== src/Spell/Checking.antt =====
-- What SpellCheckText and spellCheck of atom/renderer/api/atom_api_spell_check_client.cc report.
use atom_shell.Common.{
  ◌≡◌, refl, ap, ◌∙◌, Bool, true, false, not, ◌||◌, Option, none, some, List, [], ◌∷◌, length, ◌==◌,
  if◌then◌else◌, keep_if, map,
}
use atom_shell.Spell.Swaps.{Text}
use atom_shell.Spell.Client.{
  Client, Word, Misspelling, spell_check_word, is_valid_contraction, check_words, check_text_words,
  has_function, spell_check_text, spell_check, only_result, request_checking_of_text, is_empty,
  has_word_characters,
}

abbrev pub first {ℓ} : {A : Type ℓ} → List A → Option A
first [] = none
first (x ∷ xs) = some x

abbrev pub first_only {ℓ} : {A : Type ℓ} → List A → List A
first_only [] = []
first_only (x ∷ xs) = x ∷ []

abbrev pub place : Word → Misspelling
place w = record { location = w.word_start; extent = w.word_length }

abbrev pub words_or_none : Option (List Word) → List Word
words_or_none none = []
words_or_none (some words) = words

report-all :
    (correct contraction : Bool) (w : Word) (more : List Misspelling) (kept : List Word)
    → more ≡ map place kept
    → (if correct then more else if contraction then more else place w ∷ more)
      ≡ map place (elim (not (correct || contraction)) [ true ↦ w ∷ kept | false ↦ kept ])
report-all true contraction w more kept h = h
report-all false true w more kept h = h
report-all false false w more kept h = ap (◌∷◌ (place w)) h

report-first :
    (correct contraction : Bool) (w : Word) (more : List Misspelling) (kept : List Word)
    → more ≡ first_only (map place kept)
    → (if correct then more else if contraction then more else place w ∷ [])
      ≡ first_only
          (map place (elim (not (correct || contraction)) [ true ↦ w ∷ kept | false ↦ kept ]))
report-first true contraction w more kept h = h
report-first false true w more kept h = h
report-first false false w more kept h = refl

only_result-first_only : (found : List Misspelling) → only_result (first_only found) ≡ first found
only_result-first_only [] = refl
only_result-first_only (m ∷ rest) = refl

module _ (client : Client) where
  abbrev pub is_misspelled : Word → Bool
  is_misspelled w = not (spell_check_word client w.word || is_valid_contraction client w.word)

  -- The words that are looked at.
  abbrev pub words_of : Text → List Word
  words_of text =
      if (length text == 0) || not (has_function client client.spell_check_function)
      then []
      else words_or_none (client.text_words text)

  abbrev pub misspellings : Text → List Misspelling
  misspellings text = map place (keep_if is_misspelled (words_of text))

  check_words-all :
      (words : List Word) → check_words client false words ≡ map place (keep_if is_misspelled words)
  check_words-all [] = refl
  check_words-all (w ∷ rest) =
      report-all (spell_check_word client w.word) (is_valid_contraction client w.word) w _ _
        (check_words-all rest)

  check_words-first :
      (words : List Word)
      → check_words client true words ≡ first_only (map place (keep_if is_misspelled words))
  check_words-first [] = refl
  check_words-first (w ∷ rest) =
      report-first (spell_check_word client w.word) (is_valid_contraction client w.word) w _ _
        (check_words-first rest)

  spell_check_text-all : (text : Text) → spell_check_text client text false ≡ misspellings text
  unfolding spell_check_text
  spell_check_text-all text =
      elim ((length text == 0) || not (has_function client client.spell_check_function))
        as (λ nothing.
          (if nothing then [] else check_text_words client false (client.text_words text))
          ≡ map place (
              keep_if is_misspelled
                (if nothing then [] else words_or_none (client.text_words text)))) [
                  | true ↦ refl
                  | false ↦
                      elim (client.text_words text)
                        as (λ words.
                          check_text_words client false words
                          ≡ map place (keep_if is_misspelled (words_or_none words))) [
                            | none ↦ refl
                            | some words ↦ check_words-all words
                          ]
                ]

  spell_check_text-first :
      (text : Text) → spell_check_text client text true ≡ first_only (misspellings text)
  unfolding spell_check_text
  spell_check_text-first text =
      elim ((length text == 0) || not (has_function client client.spell_check_function))
        as (λ nothing.
          (if nothing then [] else check_text_words client true (client.text_words text))
          ≡ first_only (
              map place (
                keep_if is_misspelled
                  (if nothing then [] else words_or_none (client.text_words text))))) [
                    | true ↦ refl
                    | false ↦
                        elim (client.text_words text)
                          as (λ words.
                            check_text_words client true words
                            ≡ first_only
                                (map place (keep_if is_misspelled (words_or_none words)))) [
                                  | none ↦ refl
                                  | some words ↦ check_words-first words
                                ]
                  ]

-- For every text, requestCheckingOfText cancels it if it is empty or all its characters are common to the
-- scripts, and otherwise reports, in order, exactly the words of it that are neither correct nor contractions of
-- correct words; spellCheck reports the first of those words, and nothing if there is none.
pub spell_check-misspellings :
    (client : Client) (text : Text)
    → (request_checking_of_text client text ≡ (
        if is_empty text || not (has_word_characters client text)
        then none
        else some (misspellings client text)))
      × (spell_check client text ≡ first (misspellings client text))
unfolding spell_check request_checking_of_text
spell_check-misspellings client text = (
  ap (λ found. if is_empty text || not (has_word_characters client text) then none else some found)
      (spell_check_text-all client text),
  ap only_result (spell_check_text-first client text)
      ∙ only_result-first_only (misspellings client text),
)
