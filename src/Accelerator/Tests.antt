-- ===== src/Accelerator/Tests.antt =====
-- Runs of the accelerator modules at concrete descriptions, menus and shortcuts.
use Prim.Native.Char.{Char, code}
use atom_shell.Common.{
  ℕ, ◌+◌, ◌*◌, ◌-◌, ◌≡◌, refl, true, false, ◌&&◌, Option, none, some, List, [], ◌∷◌, String, ltb,
  ◌==◌, if◌then◌else◌,
}
use atom_shell.Common.Int.{ℤ, pos}
use atom_shell.Common.Dictionary.{nat_key, insert}
use atom_shell.Accelerator.Keys.{Key, unknown, key_a, f1, oem_plus}
use atom_shell.Accelerator.Parse.{Base, string_to_accelerator}
use atom_shell.Accelerator.Meaning.{effects_of, string_to_accelerator_lem}
use atom_shell.Accelerator.Table.{
  Items, no_items, item, submenu, generate, trigger, trigger-generate,
}
use atom_shell.Accelerator.Shortcuts.{
  Request, registers, unregisters, no_shortcuts, run, register, unregister, is_registered,
  run-AgreesWithListener,
}

abbrev push : Char → List String → List String
push c [] = (String.◌∷◌ c "") ∷ []
push c (w ∷ ws) = String.◌∷◌ c w ∷ ws

abbrev split_at_plus : String → List String
split_at_plus String.[] = "" ∷ []
split_at_plus (String.◌∷◌ c rest) =
    let ws = split_at_plus rest in if code c == 43 then "" ∷ ws else push c ws

abbrev number : ℕ → String → Option ℤ
number n String.[] = some (pos n)
number n (String.◌∷◌ c rest) =
    let r = number (n * 10 + (code c - 48)) rest in
    if ltb 47 (code c) && ltb (code c) 58 then r else none

-- The first keys of Windows' virtual key codes; the others get a number of no key.
abbrev windows_code : Key → ℕ
windows_code unknown = 0
windows_code key_a = 65
windows_code f1 = 112
windows_code oem_plus = 187
windows_code _ = 255

abbrev linux : Base
linux = record {
  is_string_ascii = λ d. true;
  string_to_lower_ascii = λ d. d;
  split_string = split_at_plus;
  string_to_int = number 0;
  keyboard_code = windows_code;
  is_mac = false;
}

-- The platform has no "cmd", there is no "f25", and "ctrl" alone sets no key.
effects_of-cmd : effects_of linux ("cmd" ∷ "a" ∷ []) ≡ none
effects_of-cmd = refl

effects_of-f25 : effects_of linux ("f25" ∷ []) ≡ none
effects_of-f25 = refl

string_to_accelerator-ctrl : string_to_accelerator linux "ctrl" ≡ none
string_to_accelerator-ctrl = string_to_accelerator_lem linux "ctrl"

-- Accelerator 7 stands in the menu 1 and again in its submenu 2.
abbrev edit_menu : Items ℕ
edit_menu = item (some 7) (submenu 2 (item none (item (some 7) no_items)) (item (some 8) no_items))

trigger-generate_example :
    trigger (generate [] 1 0 edit_menu) 7 ≡ some (record { position = 1; model = 2 })
trigger-generate_example = trigger-generate 7 1 edit_menu

abbrev requests : List (Request ℕ ℕ)
requests = registers 5 100 true ∷ registers 6 101 false ∷ unregisters 6 ∷ registers 5 102 false ∷ []

run-AgreesWithListener_example : is_registered 5 (run requests no_shortcuts) ≡ true
unfolding run register unregister insert
run-AgreesWithListener_example = run-AgreesWithListener requests 5
