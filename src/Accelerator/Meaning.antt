-- ===== src/Accelerator/Meaning.antt =====
-- What a whole description of an accelerator means: StringToAccelerator (atom/browser/ui/accelerator_util.cc).
use atom_shell.Common.{
  ℕ, ◌≡◌, refl, ◌∙◌, ap, true, Option, none, some, List, [], ◌∷◌, String, ◌==◌, if◌then◌else◌,
  arith, Bool-cases, inl, inr,
}
use atom_shell.Accelerator.Keys.{unknown}
use atom_shell.Accelerator.Parse.{
  Base, Modifiers, ef_none, Accelerator, token_loop, with_key, string_to_accelerator,
}
use atom_shell.Accelerator.Effects.{Effect, union, or_key, apply, acted, effect_of, token_step_lem}

abbrev pub and_effects : Option Effect → Option (List Effect) → Option (List Effect)
and_effects none es = none
and_effects (some e) none = none
and_effects (some e) (some es) = some (e ∷ es)

-- What the tokens mean, if each of them means something.
abbrev pub effects_of : Base → List String → Option (List Effect)
effects_of b [] = some []
effects_of b (t ∷ ts) = and_effects (effect_of b t) (effects_of b ts)

-- The key of the last effect that sets one.
abbrev pub last_key : List Effect → Option ℕ
last_key [] = none
last_key (e ∷ es) = elim (last_key es) [ none ↦ e.sets | some key ↦ some key ]

abbrev pub all_modifiers : List Effect → Modifiers
all_modifiers [] = ef_none
all_modifiers (e ∷ es) = union e.adds (all_modifiers es)

-- A known key with modifiers.
abbrev pub with_modifiers : ℕ → Modifiers → Option ℕ → Option Accelerator
with_modifiers unknown_code modifiers none = none
with_modifiers unknown_code modifiers (some key) =
    if key == unknown_code then none else some (record { key_code = key; modifiers = modifiers })

abbrev pub meaning : ℕ → Option (List Effect) → Option Accelerator
meaning unknown_code none = none
meaning unknown_code (some es) = with_modifiers unknown_code (all_modifiers es) (last_key es)

-- One token after the other.
abbrev total : List Effect → Accelerator → Accelerator
total [] s = s
total (e ∷ es) s = total es (apply e s)

abbrev after_all : Option (List Effect) → Accelerator → Option Accelerator
after_all none s = none
after_all (some es) s = some (total es s)

same : (a : ℕ) → (a == a) ≡ true
same a = ground arith

or_key-last :
    (o sets : Option ℕ) (k : ℕ)
    → or_key o (or_key sets k) ≡ or_key (elim o [ none ↦ sets | some key ↦ some key ]) k
or_key-last none sets k = refl
or_key-last (some key) sets k = refl

total_lem :
    (es : List Effect) (s : Accelerator)
    → total es s ≡ record {
      key_code = or_key (last_key es) s.key_code;
      modifiers = union s.modifiers (all_modifiers es);
    }
total_lem [] s = ground arith
total_lem (e ∷ es) s =
    total_lem es (apply e s) ∙ ground (arith, or_key-last (last_key es) e.sets s.key_code)

module _ (b : Base) where
  open b use {keyboard_code, is_string_ascii, split_string, string_to_lower_ascii}

  token_loop_lem :
      (ts : List String) (s : Accelerator) → token_loop b ts s ≡ after_all (effects_of b ts) s
  unfolding token_loop
  token_loop_lem [] s = refl
  token_loop_lem (t ∷ ts) s =
      ap (λ o. elim o [ none ↦ none | some s' ↦ token_loop b ts s' ]) (token_step_lem b t s)
      ∙ acts (effect_of b t) (λ s. token_loop_lem ts s)
    where
      listed :
          (e : Effect) (es : Option (List Effect))
          → after_all es (apply e s) ≡ after_all (and_effects (some e) es) s
      listed e none = refl
      listed e (some es) = refl

      acts :
          (o : Option Effect)
          → ((s : Accelerator) → token_loop b ts s ≡ after_all (effects_of b ts) s)
          → (elim (acted b s o) [ none ↦ none | some s' ↦ token_loop b ts s' ])
            ≡ after_all (and_effects o (effects_of b ts)) s
      acts none h = refl
      acts (some e) h = h (apply e s) ∙ listed e (effects_of b ts)

  abbrev blank : Accelerator
  blank = record { key_code = keyboard_code unknown; modifiers = ef_none }

  finished :
      (u : ℕ) (m : Modifiers) (o : Option ℕ)
      → (if or_key o u == u
          then none
          else some (record { key_code = or_key o u; modifiers = union ef_none m }))
        ≡ with_modifiers u m o
  finished u m none = rw (same u) refl
  finished u m (some key) = refl

  with_key_lem :
      (o : Option (List Effect))
      → with_key b (after_all o blank) ≡ meaning (keyboard_code unknown) o
  unfolding with_key
  with_key_lem none = refl
  with_key_lem (some es) =
      ap (λ s. if s.key_code == keyboard_code unknown then none else some s) (total_lem es blank)
      ∙ finished (keyboard_code unknown) (all_modifiers es) (last_key es)

  -- The tokens of a description.
  abbrev pub tokens : String → List String
  tokens d = split_string (string_to_lower_ascii d)

  pub string_to_accelerator_lem :
      (d : String)
      → string_to_accelerator b d ≡ (
          if is_string_ascii d
          then meaning (keyboard_code unknown) (effects_of b (tokens d))
          else none)
  unfolding string_to_accelerator
  string_to_accelerator_lem d = elim (Bool-cases (is_string_ascii d)) [
    | inl e ↦
        rw e (
          ap (with_key b) (token_loop_lem (tokens d) blank)
          ∙ with_key_lem (effects_of b (tokens d)))
    | inr e ↦ rw e refl
  ]
