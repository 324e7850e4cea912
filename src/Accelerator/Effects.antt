-- ===== src/Accelerator/Effects.antt =====
-- What each token of an accelerator means (atom/browser/ui/accelerator_util.cc).
use Prim.Native.Char.{code}
use atom_shell.Common.{
  ℕ, ◌+◌, ◌-◌, ◌≡◌, refl, ap, ◌∙◌, Bool, true, false, ◌||◌, ◌&&◌, Option, none, some, List, [], ◌∷◌,
  String, str_eq, ◌==◌, if◌then◌else◌, arith,
}
use atom_shell.Common.Int.{ℤ, pos, ltb_ℤ, pos_part}
use atom_shell.Accelerator.Keys.{
  Key, back, tab, return_key, escape, space, oem_plus, delete_key, insert_key, up, down, left,
  right, home, end_key, prior, next_key, volume_mute, volume_up, volume_down, media_next_track,
  media_prev_track, media_stop, media_play_pause, f1, keyboard_code_from_char_code,
}
use atom_shell.Accelerator.Parse.{
  Base, Modifiers, ef_none, Accelerator, find_key, token_step, function_key, other_token,
  named_token, word_token, char_token,
}

-- The modifiers that a token adds and the key that it sets, if any.
pub record Effect : Type 0 where
  pub adds : Modifiers
  pub sets : Option ℕ

abbrev pub union : Modifiers → Modifiers → Modifiers
union m n = record {
  shift = m.shift || n.shift;
  control = m.control || n.control;
  alt = m.alt || n.alt;
  command = m.command || n.command;
}

abbrev pub or_key : Option ℕ → ℕ → ℕ
or_key none k = k
or_key (some j) k = j

abbrev pub apply : Effect → Accelerator → Accelerator
apply e s = record { key_code = or_key e.sets s.key_code; modifiers = union s.modifiers e.adds }

abbrev pub adding : Modifiers → Effect
adding m = record { adds = m; sets = none }

abbrev pub setting : ℕ → Effect
setting code = record { adds = ef_none; sets = some code }

abbrev pub control_effect : Effect
control_effect = adding (record ef_none { control = true })

abbrev pub command_effect : Effect
command_effect = adding (record ef_none { command = true })

-- The words for modifiers: the word, whether the platform has it, and what it means.
abbrev pub modifier_words : Bool → ℕ → List (String × Bool × Effect)
modifier_words is_mac plus =
    ("ctrl", true, control_effect)
    ∷ ("control", true, control_effect)
    ∷ ("super", true, command_effect)
    ∷ ("cmd", is_mac, command_effect)
    ∷ ("command", is_mac, command_effect)
    ∷ ("commandorcontrol", true, if is_mac then command_effect else control_effect)
    ∷ ("cmdorctrl", true, if is_mac then command_effect else control_effect)
    ∷ ("alt", true, adding (record ef_none { alt = true }))
    ∷ ("shift", true, adding (record ef_none { shift = true }))
    ∷ ("plus", true, record { adds = record ef_none { shift = true }; sets = some plus })
    ∷ []

-- The keys that have names.
abbrev pub key_names : List (Key × List String)
key_names =
    (tab, "tab" ∷ [])
    ∷ (space, "space" ∷ [])
    ∷ (back, "backspace" ∷ [])
    ∷ (delete_key, "delete" ∷ [])
    ∷ (insert_key, "insert" ∷ [])
    ∷ (return_key, "enter" ∷ "return" ∷ [])
    ∷ (up, "up" ∷ [])
    ∷ (down, "down" ∷ [])
    ∷ (left, "left" ∷ [])
    ∷ (right, "right" ∷ [])
    ∷ (home, "home" ∷ [])
    ∷ (end_key, "end" ∷ [])
    ∷ (prior, "pagedown" ∷ [])
    ∷ (next_key, "pageup" ∷ [])
    ∷ (escape, "esc" ∷ "escape" ∷ [])
    ∷ (volume_mute, "volumemute" ∷ [])
    ∷ (volume_up, "volumeup" ∷ [])
    ∷ (volume_down, "volumedown" ∷ [])
    ∷ (media_next_track, "medianexttrack" ∷ [])
    ∷ (media_prev_track, "mediaprevioustrack" ∷ [])
    ∷ (media_stop, "mediastop" ∷ [])
    ∷ (media_play_pause, "mediaplaypause" ∷ [])
    ∷ []

abbrev pub is_one_of : String → List String → Bool
is_one_of t [] = false
is_one_of t (name ∷ names) = str_eq t name || is_one_of t names

abbrev pub key_named : String → List (Key × List String) → Option Key
key_named t [] = none
key_named t ((key, names) ∷ rest) = if is_one_of t names then some key else key_named t rest

abbrev pub word_effect : String → List (String × Bool × Effect) → Option Effect → Option Effect
word_effect t [] other = other
word_effect t ((word, is_there, e) ∷ rest) other =
    if is_there && str_eq t word then some e else word_effect t rest other

abbrev paired : Key → List String → List (String × Key) → List (String × Key)
paired key [] others = others
paired key (name ∷ names) others = (name, key) ∷ paired key names others

find_key-paired :
    (t : String) (key : Key) (names : List String) (others : List (String × Key))
    → find_key t (paired key names others)
      ≡ (if is_one_of t names then some key else find_key t others)
find_key-paired t key [] others = refl
find_key-paired t key (name ∷ names) others =
    one_of (str_eq t name) (find_key-paired t key names others)
  where
    one_of :
        (c : Bool)
        → find_key t (paired key names others)
          ≡ (if is_one_of t names then some key else find_key t others)
        → (if c then some key else find_key t (paired key names others))
          ≡ (if c || is_one_of t names then some key else find_key t others)
    one_of true e = refl
    one_of false e = e

abbrev named_pairs : List (Key × List String) → List (String × Key)
named_pairs [] = []
named_pairs ((key, names) ∷ rest) = paired key names (named_pairs rest)

key_named_lem :
    (t : String) (ks : List (Key × List String)) → find_key t (named_pairs ks) ≡ key_named t ks
key_named_lem t [] = refl
key_named_lem t ((key, names) ∷ rest) =
    find_key-paired t key names (named_pairs rest)
    ∙ ap (λ o. if is_one_of t names then some key else o) (key_named_lem t rest)

module _ (b : Base) where
  open b use {keyboard_code, string_to_int, is_mac}

  -- The number behind an "f" is from 1 to 24.
  abbrev pub function_effect : Option ℤ → Option Effect
  function_effect none = none
  function_effect (some n) =
      if ltb_ℤ (pos 0) n && ltb_ℤ n (pos 25)
      then some (setting (keyboard_code f1 + pos_part n - 1))
      else none

  abbrev pub numbered_effect : String → Option Effect
  numbered_effect (String.◌∷◌ c (String.◌∷◌ d rest)) =
      if code c == b'f' then function_effect (string_to_int (String.◌∷◌ d rest)) else none
  numbered_effect t = none

  abbrev pub key_effect : Option Key → String → Option Effect
  key_effect (some key) t = some (setting (keyboard_code key))
  key_effect none t = numbered_effect t

  abbrev pub char_effect : Key × Bool → Effect
  char_effect (key, shifted) = record {
    adds = record ef_none { shift = shifted };
    sets = some (keyboard_code key);
  }

  abbrev pub named_effect : String → Option Effect
  named_effect t =
      word_effect t (modifier_words is_mac (keyboard_code oem_plus))
        (key_effect (key_named t key_names) t)

  -- A single character is a key, with shift if it needs that; a longer token is a modifier, the name of a key, or a
  -- function key; any other text has no meaning.
  abbrev pub effect_of : String → Option Effect
  effect_of (String.◌∷◌ c String.[]) = some (char_effect (keyboard_code_from_char_code (code c)))
  effect_of t = named_effect t

  abbrev pub acted : Accelerator → Option Effect → Option Accelerator
  acted s none = none
  acted s (some e) = some (apply e s)

  step-if :
      (s : Accelerator) (c : Bool) (f g : Option Accelerator) (x y : Option Effect)
      → f ≡ acted s x
      → g ≡ acted s y
      → (if c then f else g) ≡ acted s (if c then x else y)
  step-if s true f g x y p q = p
  step-if s false f g x y p q = q

  -- Two words for the same, if the platform has them.
  step-or :
      (s : Accelerator) (m c d : Bool) (f g : Option Accelerator) (x y : Option Effect)
      → f ≡ acted s x
      → g ≡ acted s y
      → (if m && (c || d) then f else g) ≡ acted s (if m && c then x else if m && d then x else y)
  step-or s true true d f g x y p q = p
  step-or s true false true f g x y p q = p
  step-or s true false false f g x y p q = q
  step-or s false c d f g x y p q = q

  function_key_lem :
      (n : Option ℤ) (s : Accelerator) → function_key b n s ≡ acted s (function_effect n)
  unfolding function_key
  function_key_lem none s = refl
  function_key_lem (some n) s =
      step-if s (ltb_ℤ (pos 0) n && ltb_ℤ n (pos 25)) _ _ _ _ (ground arith) refl

  other_token_lem : (t : String) (s : Accelerator) → other_token b t s ≡ acted s (numbered_effect t)
  unfolding other_token
  other_token_lem (String.◌∷◌ c (String.◌∷◌ d rest)) s =
      step-if s (code c == b'f') _ _ _ _ (function_key_lem (string_to_int (String.◌∷◌ d rest)) s)
        refl
  other_token_lem (String.◌∷◌ c String.[]) s = refl
  other_token_lem String.[] s = refl

  named_token_lem :
      (o : Option Key) (t : String) (s : Accelerator)
      → named_token b o t s ≡ acted s (key_effect o t)
  unfolding named_token
  named_token_lem (some key) t s = ground arith
  named_token_lem none t s = other_token_lem t s

  word_token_lem : (t : String) (s : Accelerator) → word_token b t s ≡ acted s (named_effect t)
  unfolding word_token
  word_token_lem t s =
      step-or s true (str_eq t "ctrl") (str_eq t "control") _ _ _ _ (ground arith) (
        step-if s (str_eq t "super") _ _ _ _ (ground arith) (
          step-or s is_mac (str_eq t "cmd") (str_eq t "command") _ _ _ _ (ground arith) (
            step-or s true (str_eq t "commandorcontrol") (str_eq t "cmdorctrl") _ _ _ _
              (ground arith)
              (step-if s (str_eq t "alt") _ _ _ _ (ground arith) (
                step-if s (str_eq t "shift") _ _ _ _ (ground arith) (
                  step-if s (str_eq t "plus") _ _ _ _ (ground arith) (
                    ap (λ o. named_token b o t s) (key_named_lem t key_names)
                    ∙ named_token_lem (key_named t key_names) t s)))))))

  char_token_lem :
      (k : Key × Bool) (s : Accelerator) → some (char_token b k s) ≡ acted s (some (char_effect k))
  unfolding char_token
  char_token_lem (key, shifted) s = ground arith

  pub token_step_lem : (t : String) (s : Accelerator) → token_step b t s ≡ acted s (effect_of t)
  unfolding token_step
  token_step_lem (String.◌∷◌ c String.[]) s =
      char_token_lem (keyboard_code_from_char_code (code c)) s
  token_step_lem (String.◌∷◌ c (String.◌∷◌ d rest)) s =
      word_token_lem (String.◌∷◌ c (String.◌∷◌ d rest)) s
  token_step_lem String.[] s = word_token_lem String.[] s
