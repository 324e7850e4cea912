-- ===== src/Spell/Swaps.antt =====
-- The array of GetAutoCorrectionWord (atom/renderer/api/atom_api_spell_check_client.cc): its swaps, and what
-- is read of it.
use atom_shell.Common.{
  ℕ, zero, suc, ◌+◌, ◌-◌, ◌<◌, ◌≡◌, refl, sym, ap, ◌∙◌, List, [], ◌∷◌, ◌++◌, length, ◌==◌,
  if◌then◌else◌, arith, All, map,
}

abbrev pub Text : Type 0
Text = List ℕ

abbrev pub max_auto_correct_word_size : ℕ
max_auto_correct_word_size = 8

-- std::swap of the entries i and i + 1.
unfoldable pub swap_at : ℕ → Text → Text
swap_at i [] = []
swap_at i (a ∷ []) = a ∷ []
swap_at zero (a ∷ b ∷ rest) = b ∷ a ∷ rest
swap_at (suc i) (a ∷ b ∷ rest) = a ∷ swap_at i (b ∷ rest)

unfoldable pub take : ℕ → Text → Text
take zero text = []
take (suc n) [] = []
take (suc n) (a ∷ rest) = a ∷ take n rest

-- string16::assign of an array that a NUL ends.
unfoldable pub until_nul : Text → Text
until_nul [] = []
until_nul (a ∷ rest) = if a == 0 then [] else a ∷ until_nul rest

abbrev pub zeros : ℕ → Text
zeros zero = []
zeros (suc n) = 0 ∷ zeros n

-- The array misspelled_word, one longer than the longest word.
abbrev pub padded : Text → Text
padded word = word ++ zeros (max_auto_correct_word_size + 1 - length word)

pub swap_at-swap_at : (i : ℕ) (text : Text) → swap_at i (swap_at i text) ≡ text
unfolding swap_at
swap_at-swap_at zero [] = refl
swap_at-swap_at zero (a ∷ []) = refl
swap_at-swap_at zero (a ∷ b ∷ rest) = refl
swap_at-swap_at (suc i) [] = refl
swap_at-swap_at (suc i) (a ∷ []) = refl
swap_at-swap_at (suc zero) (a ∷ b ∷ []) = refl
swap_at-swap_at (suc zero) (a ∷ b ∷ c ∷ rest) = refl
swap_at-swap_at (suc (suc i)) (a ∷ b ∷ []) = refl
swap_at-swap_at (suc (suc i)) (a ∷ b ∷ c ∷ rest) =
    ap (◌∷◌ a) (swap_at-swap_at (suc i) (b ∷ c ∷ rest))

pub length-swap_at : (i : ℕ) (text : Text) → length (swap_at i text) ≡ length text
unfolding swap_at
length-swap_at i [] = refl
length-swap_at i (a ∷ []) = refl
length-swap_at zero (a ∷ b ∷ rest) = refl
length-swap_at (suc i) (a ∷ b ∷ rest) = ap suc (length-swap_at i (b ∷ rest))

pub swap_at-append :
    (i : ℕ) (word rest : Text)
    → suc i < length word
    → swap_at i (word ++ rest) ≡ swap_at i word ++ rest
unfolding swap_at
swap_at-append i [] rest h = ground arith
swap_at-append i (a ∷ []) rest h = ground arith
swap_at-append zero (a ∷ b ∷ word) rest h = refl
swap_at-append (suc i) (a ∷ b ∷ word) rest h =
    ap (◌∷◌ a) (swap_at-append i (b ∷ word) rest (omega arith))

pub take-append : (word rest : Text) → take (length word) (word ++ rest) ≡ word
unfolding take
take-append [] rest = refl
take-append (a ∷ word) rest = ap (◌∷◌ a) (take-append word rest)

-- A character of a word is not a NUL.
abbrev pub IsNonzero : ℕ → Type 0
IsNonzero a = 0 < a

pub All-swap_at : (i : ℕ) (word : Text) → All IsNonzero word → All IsNonzero (swap_at i word)
unfolding swap_at
All-swap_at i [] h = h
All-swap_at i (a ∷ []) h = h
All-swap_at zero (a ∷ b ∷ word) h = (h.1.0, (h.0, h.1.1))
All-swap_at (suc i) (a ∷ b ∷ word) h = (h.0, All-swap_at i (b ∷ word) h.1)

until_nul-append : (word rest : Text) → All IsNonzero word → until_nul (word ++ 0 ∷ rest) ≡ word
unfolding until_nul
until_nul-append [] rest h = refl
until_nul-append (suc a ∷ word) rest h = ground (arith, until_nul-append word rest h.1)
until_nul-append (zero ∷ word) rest h = ground (arith, h.0)

module _ (i : ℕ) (word : Text) (inside : suc i < length word) where
  pub take-swap_at : (rest : Text) → take (length word) (swap_at i (word ++ rest)) ≡ swap_at i word
  take-swap_at rest = rw (
    swap_at-append i word rest inside,
    sym (length-swap_at i word),
    take-append (swap_at i word) rest,
  )

  pub until_nul-swap_at :
      (rest : Text) → All IsNonzero word → until_nul (swap_at i (word ++ 0 ∷ rest)) ≡ swap_at i word
  until_nul-swap_at rest h =
      ap until_nul (swap_at-append i word (0 ∷ rest) inside)
      ∙ until_nul-append (swap_at i word) rest (All-swap_at i word h)

-- The words that differ from a word in one swap of neighbours, from the left.
unfoldable pub neighbour_swaps : Text → List Text
neighbour_swaps [] = []
neighbour_swaps (a ∷ []) = []
neighbour_swaps (a ∷ b ∷ rest) = (b ∷ a ∷ rest) ∷ map (◌∷◌ a) (neighbour_swaps (b ∷ rest))

-- The swaps of the rounds that are left.
unfoldable pub swaps_from : ℕ → ℕ → Text → List Text
swaps_from zero i word = []
swaps_from (suc rounds) i word = swap_at i word ∷ swaps_from rounds (suc i) word

swaps_from-cons :
    (rounds i a b : ℕ) (word : Text)
    → swaps_from rounds (suc i) (a ∷ b ∷ word) ≡ map (◌∷◌ a) (swaps_from rounds i (b ∷ word))
unfolding swaps_from swap_at
swaps_from-cons zero i a b word = refl
swaps_from-cons (suc rounds) i a b word =
    ap (◌∷◌ (a ∷ swap_at i (b ∷ word))) (swaps_from-cons rounds (suc i) a b word)

pub swaps_from-neighbour_swaps :
    (a : ℕ) (word : Text) → swaps_from (length word) 0 (a ∷ word) ≡ neighbour_swaps (a ∷ word)
unfolding swaps_from neighbour_swaps swap_at
swaps_from-neighbour_swaps a [] = refl
swaps_from-neighbour_swaps a (b ∷ word) = ap (◌∷◌ (b ∷ a ∷ word)) (
    swaps_from-cons (length word) 0 a b word ∙ ap (map (◌∷◌ a)) (swaps_from-neighbour_swaps b word))
