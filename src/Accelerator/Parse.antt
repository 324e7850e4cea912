-- ===== src/Accelerator/Parse.antt =====
-- StringToAccelerator (atom/browser/ui/accelerator_util.cc). The string functions of base and the
-- codes of ui::KeyboardCode are parameters; the flags EF_SHIFT_DOWN, EF_CONTROL_DOWN, EF_ALT_DOWN and
-- EF_COMMAND_DOWN are distinct bits, one Boolean each.
use Prim.Native.Char.{code}
use atom_shell.Common.{
  ℕ, ◌+◌, ◌-◌, Bool, true, false, not, ◌||◌, ◌&&◌, Option, none, some, List, [], ◌∷◌, String,
  str_eq, ◌==◌, if◌then◌else◌,
}
use atom_shell.Common.Int.{ℤ, pos, ltb_ℤ, pos_part}
use atom_shell.Accelerator.Keys.{
  Key, unknown, back, tab, return_key, escape, space, oem_plus, delete_key, insert_key, up, down,
  left, right, home, end_key, prior, next_key, volume_mute, volume_up, volume_down,
  media_next_track, media_prev_track, media_stop, media_play_pause, f1,
  keyboard_code_from_char_code,
}

-- base::IsStringASCII, base::StringToLowerASCII, base::SplitString at '+', base::StringToInt, the value
-- of each constant of ui::KeyboardCode, and whether OS_MACOSX is defined.
pub record Base : Type 0 where
  pub is_string_ascii : String → Bool
  pub string_to_lower_ascii : String → String
  pub split_string : String → List String
  pub string_to_int : String → Option ℤ
  pub keyboard_code : Key → ℕ
  pub is_mac : Bool

pub record Modifiers : Type 0 where
  pub shift : Bool
  pub control : Bool
  pub alt : Bool
  pub command : Bool

abbrev pub ef_none : Modifiers
ef_none = record { shift = false; control = false; alt = false; command = false }

-- ui::Accelerator.
pub record Accelerator : Type 0 where
  pub key_code : ℕ
  pub modifiers : Modifiers

-- The tokens that set a key and nothing else.
abbrev pub named_keys : List (String × Key)
named_keys =
    ("tab", tab)
    ∷ ("space", space)
    ∷ ("backspace", back)
    ∷ ("delete", delete_key)
    ∷ ("insert", insert_key)
    ∷ ("enter", return_key)
    ∷ ("return", return_key)
    ∷ ("up", up)
    ∷ ("down", down)
    ∷ ("left", left)
    ∷ ("right", right)
    ∷ ("home", home)
    ∷ ("end", end_key)
    ∷ ("pagedown", prior)
    ∷ ("pageup", next_key)
    ∷ ("esc", escape)
    ∷ ("escape", escape)
    ∷ ("volumemute", volume_mute)
    ∷ ("volumeup", volume_up)
    ∷ ("volumedown", volume_down)
    ∷ ("medianexttrack", media_next_track)
    ∷ ("mediaprevioustrack", media_prev_track)
    ∷ ("mediastop", media_stop)
    ∷ ("mediaplaypause", media_play_pause)
    ∷ []

abbrev pub find_key : String → List (String × Key) → Option Key
find_key t [] = none
find_key t ((name, key) ∷ rest) = if str_eq t name then some key else find_key t rest

module _ (b : Base) where
  open b use {
    is_string_ascii, string_to_lower_ascii, split_string, string_to_int, keyboard_code, is_mac,
  }

  -- F1 - F24, from the text behind the `f`.
  unfoldable pub function_key : Option ℤ → Accelerator → Option Accelerator
  function_key none s = none
  function_key (some n) s =
      if ltb_ℤ (pos 0) n && ltb_ℤ n (pos 25)
      then some (record s { key_code = keyboard_code f1 + pos_part n - 1 })
      else none

  -- The last cases: a function key, or no token at all.
  unfoldable pub other_token : String → Accelerator → Option Accelerator
  unfolding function_key
  other_token (String.◌∷◌ c (String.◌∷◌ d rest)) s =
      if code c == b'f' then function_key (string_to_int (String.◌∷◌ d rest)) s else none
  other_token t s = none

  unfoldable pub named_token : Option Key → String → Accelerator → Option Accelerator
  unfolding other_token
  named_token (some key) t s = some (record s { key_code = keyboard_code key })
  named_token none t s = other_token t s

  unfoldable pub char_token : Key × Bool → Accelerator → Accelerator
  char_token (key, shifted) s = record s {
    key_code = keyboard_code key;
    modifiers = if shifted then record (s.modifiers) { shift = true } else s.modifiers;
  }

  unfoldable pub word_token : String → Accelerator → Option Accelerator
  unfolding named_token
  word_token t s =
      if str_eq t "ctrl" || str_eq t "control"
      then some (record s { modifiers = record (s.modifiers) { control = true } })
      else if str_eq t "super"
      then some (record s { modifiers = record (s.modifiers) { command = true } })
      else if is_mac && (str_eq t "cmd" || str_eq t "command")
      then some (record s { modifiers = record (s.modifiers) { command = true } })
      else if str_eq t "commandorcontrol" || str_eq t "cmdorctrl"
      then some (record s {
        modifiers =
            if is_mac
            then record (s.modifiers) { command = true }
            else record (s.modifiers) { control = true };
      })
      else if str_eq t "alt"
      then some (record s { modifiers = record (s.modifiers) { alt = true } })
      else if str_eq t "shift"
      then some (record s { modifiers = record (s.modifiers) { shift = true } })
      else if str_eq t "plus"
      then some (record s {
        key_code = keyboard_code oem_plus;
        modifiers = record (s.modifiers) { shift = true };
      })
      else named_token (find_key t named_keys) t s

  -- One round of the loop: `none` is `return false`.
  unfoldable pub token_step : String → Accelerator → Option Accelerator
  unfolding word_token char_token keyboard_code_from_char_code
  token_step (String.◌∷◌ c String.[]) s =
      some (char_token (keyboard_code_from_char_code (code c)) s)
  token_step t s = word_token t s

  unfoldable pub token_loop : List String → Accelerator → Option Accelerator
  token_loop [] s = some s
  token_loop (t ∷ ts) s = elim (token_step t s) [ none ↦ none | some s' ↦ token_loop ts s' ]

  unfoldable pub with_key : Option Accelerator → Option Accelerator
  with_key none = none
  with_key (some s) = if s.key_code == keyboard_code unknown then none else some s

  -- The views version of SetPlatformAccelerator does nothing.
  unfoldable pub string_to_accelerator : String → Option Accelerator
  unfolding token_loop with_key
  string_to_accelerator description =
      if not (is_string_ascii description)
      then none
      else with_key (
          token_loop (split_string (string_to_lower_ascii description))
            (record { key_code = keyboard_code unknown; modifiers = ef_none }))
