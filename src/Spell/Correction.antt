-- ===== src/Spell/Correction.antt =====
-- The correction that GetAutoCorrectionWord of atom/renderer/api/atom_api_spell_check_client.cc chooses.
use atom_shell.Common.{
  ℕ, zero, suc, ◌+◌, ◌-◌, ◌≤◌, ◌<◌, ◌≡◌, refl, ap, ◌∙◌, Bool, true, false, ◌||◌, List, [], ◌∷◌,
  ◌++◌, length, ltb, arith, All, keep_if,
}
use atom_shell.Spell.Swaps.{
  Text, max_auto_correct_word_size, swap_at, until_nul, zeros, padded, IsNonzero, swap_at-swap_at,
  take-swap_at, until_nul-swap_at, length-swap_at, neighbour_swaps, swaps_from,
  swaps_from-neighbour_swaps,
}
use atom_shell.Spell.Client.{
  Client, is_empty, is_zero_length, spell_check, correction_loop, get_auto_correction_word,
}

-- The only text of a list; nothing, if there are none or several.
abbrev pub only_text : List Text → Text
only_text [] = []
only_text (x ∷ []) = x
only_text (x ∷ y ∷ rest) = []

-- The result, once `chosen` is found and the correct texts are still to come.
abbrev settle : Text → List Text → Text
settle chosen [] = chosen
settle [] (x ∷ rest) = settle x rest
settle (c ∷ chosen) (x ∷ rest) = []

settle-only_text :
    (texts : List Text) → All (λ x. 0 < length x) texts → settle [] texts ≡ only_text texts
settle-only_text [] h = refl
settle-only_text (x ∷ []) h = refl
settle-only_text ((a ∷ x) ∷ y ∷ rest) h = refl
settle-only_text ([] ∷ y ∷ rest) h = ground (arith, h.0)

abbrev pub is_correct : Client → Text → Bool
is_correct client text = is_zero_length (spell_check client text)

-- A round of the loop that goes on by `go`.
abbrev round_then : Bool → Text → Text → (Text → Text) → Text
round_then correct x chosen go = elim correct [
  | true ↦ elim (is_empty chosen) [ true ↦ go x | false ↦ [] ]
  | false ↦ go chosen
]

round_then-settle :
    (correct : Bool) (x : Text) (kept : List Text) (chosen : Text) (go : Text → Text)
    → ((c : Text) → go c ≡ settle c kept)
    → round_then correct x chosen go
      ≡ settle chosen (elim correct [ true ↦ x ∷ kept | false ↦ kept ])
round_then-settle true x kept [] go h = h x
round_then-settle true x kept (c ∷ chosen) go h = refl
round_then-settle false x kept chosen go h = h chosen

module _ (client : Client) (word : Text) (word_IsNonzero : All IsNonzero word) (spare : ℕ) where
  correction_loop-settle :
      (rounds i : ℕ) (chosen : Text)
      → i + rounds < length word
      → correction_loop client (length word) rounds i (word ++ 0 ∷ zeros spare) chosen
        ≡ settle chosen (keep_if (is_correct client) (swaps_from rounds i word))
  unfolding correction_loop swaps_from
  correction_loop-settle zero i chosen h = refl
  correction_loop-settle (suc rounds) i chosen h =
      ap
        (λ text.
          round_then (is_correct client text) (until_nul swapped) chosen (next (swap_at i swapped)))
        (take-swap_at i word (omega arith) (0 ∷ zeros spare))
      ∙ ap
          (λ x. round_then (is_correct client (swap_at i word)) x chosen (next (swap_at i swapped)))
          (until_nul-swap_at i word (omega arith) (zeros spare) word_IsNonzero)
      ∙ ap
          (λ array.
            round_then (is_correct client (swap_at i word)) (swap_at i word) chosen (next array))
          (swap_at-swap_at i (word ++ 0 ∷ zeros spare))
      ∙ round_then-settle (is_correct client (swap_at i word)) (swap_at i word) _ chosen _
          (λ c. correction_loop-settle rounds (suc i) c (omega arith))
    where
      swapped : Text
      swapped = swap_at i (word ++ 0 ∷ zeros spare)

      next : Text → Text → Text
      next array c = correction_loop client (length word) rounds (suc i) array c

All-swaps_from :
    (rounds i : ℕ) (word : Text) (p : Text → Bool)
    → 0 < length word
    → All (λ x. 0 < length x) (keep_if p (swaps_from rounds i word))
unfolding swaps_from
All-swaps_from zero i word p h = record {}
All-swaps_from (suc rounds) i word p h =
    elim (p (swap_at i word))
      as (λ kept.
        All (λ x. 0 < length x)
          (elim kept [
            | true ↦ swap_at i word ∷ keep_if p (swaps_from rounds (suc i) word)
            | false ↦ keep_if p (swaps_from rounds (suc i) word)
          ])) [
            | true ↦ (rw (length-swap_at i word) h, All-swaps_from rounds (suc i) word p h)
            | false ↦ All-swaps_from rounds (suc i) word p h
          ]

padded_lem : (word : Text) → length word ≤ 8 → padded word ≡ word ++ 0 ∷ zeros (8 - length word)
padded_lem word h = ap (λ n. word ++ zeros n) spare
  where
    spare : 9 - length word ≡ suc (8 - length word)
    spare = omega arith

-- For every word of two to eight code units, none of them NUL, GetAutoCorrectionWord returns the only text that
-- spellCheck accepts among those that come of the word by one swap of neighbouring units, and the empty text if
-- it accepts none or several of these.
pub get_auto_correction_word-only :
    (client : Client) (word : Text)
    → 2 ≤ length word
    → length word ≤ max_auto_correct_word_size
    → All IsNonzero word
    → get_auto_correction_word client word
      ≡ only_text (keep_if (is_correct client) (neighbour_swaps word))
unfolding get_auto_correction_word
get_auto_correction_word-only client [] low high h = ground arith
get_auto_correction_word-only client (a ∷ word) low high h =
    rw (fits, rounds, padded_lem (a ∷ word) high, ← (swaps_from-neighbour_swaps a word))
      (correction_loop-settle client (a ∷ word) h (8 - length (a ∷ word)) (length word) 0 []
          (omega arith)
        ∙ settle-only_text _
            (All-swaps_from (length word) 0 (a ∷ word) (is_correct client) (omega arith)))
  where
    fits : (ltb (suc (length word)) 2 || ltb 8 (suc (length word))) ≡ false
    fits = ground arith

    rounds : suc (length word) - 1 ≡ length word
    rounds = omega arith
