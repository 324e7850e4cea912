-- ===== src/Accelerator/Shortcuts.antt =====
-- GlobalShortcut (atom/browser/api/atom_api_global_shortcut.cc). K is ui::Accelerator with its operator<,
-- V the callbacks. GlobalShortcutListener belongs to Chromium: the state logs the calls that it
-- receives, and its answer to RegisterAccelerator is an argument.
use atom_shell.Common.{
  ◌≡◌, refl, Bool, true, false, not, ◌&&◌, Option, none, List, [], ◌∷◌, if◌then◌else◌, arith,
}
use atom_shell.Common.Dictionary.{
  Key, lookup, contains, insert, erase, contains-insert, contains-erase,
}

pub data Call (K : Type 0) : Type 0 where
  register_accelerator : K → Bool → Call K
  unregister_accelerator : K → Call K
  unregister_accelerators : Call K

-- What JavaScript and the listener ask for: Register with the listener's answer.
pub data Request (K V : Type 0) : Type 0 where
  registers : K → V → Bool → Request K V
  unregisters : K → Request K V
  unregisters_all : Request K V

-- accelerator_callback_map_, and the calls to the listener, the last one first.
pub record Shortcuts (K V : Type 0) : Type 0 where
  pub callbacks : List (K × V)
  pub calls : List (Call K)

-- What the listener holds for this object after the calls: it holds an accelerator from a
-- registration that it accepted until it is told to drop it.
abbrev pub holds : {K : Type 0} ⦃key : Key K⦄ → K → List (Call K) → Bool
holds k [] = false
holds ⦃key⦄ k (register_accelerator j answer ∷ rest) =
    if answer && key.same j k then true else holds k rest
holds ⦃key⦄ k (unregister_accelerator j ∷ rest) = if key.same j k then false else holds k rest
holds ⦃key⦄ k (unregister_accelerators ∷ rest) = false

module _ {K V : Type 0} ⦃key : Key K⦄ where
  unfoldable pub register : K → V → Bool → Shortcuts K V → Bool × Shortcuts K V
  register k callback answer s =
      let called = record s { calls = register_accelerator k answer ∷ s.calls } in
      if not answer
      then (false, called)
      else (true, record called { callbacks = insert k callback s.callbacks })

  unfoldable pub unregister : K → Shortcuts K V → Shortcuts K V
  unregister k s =
      if not (contains k s.callbacks)
      then s
      else record { callbacks = erase k s.callbacks; calls = unregister_accelerator k ∷ s.calls }

  unfoldable pub is_registered : K → Shortcuts K V → Bool
  is_registered k s = contains k s.callbacks

  -- The destructor does the same.
  unfoldable pub unregister_all : Shortcuts K V → Shortcuts K V
  unregister_all s = record { callbacks = []; calls = unregister_accelerators ∷ s.calls }

  -- The callback that runs; `none` is NOTREACHED.
  unfoldable pub on_key_pressed : K → Shortcuts K V → Option V
  on_key_pressed k s = if not (contains k s.callbacks) then none else lookup k s.callbacks

  abbrev pub step : Request K V → Shortcuts K V → Shortcuts K V
  step (registers k callback answer) s = (register k callback answer s).1
  step (unregisters k) s = unregister k s
  step unregisters_all s = unregister_all s

  unfoldable pub run : List (Request K V) → Shortcuts K V → Shortcuts K V
  run [] s = s
  run (r ∷ rs) s = run rs (step r s)

  abbrev pub AgreesWithListener : Shortcuts K V → Type 0
  AgreesWithListener s = (k : K) → contains k s.callbacks ≡ holds k s.calls

  step-AgreesWithListener :
      (r : Request K V) (s : Shortcuts K V) → AgreesWithListener s → AgreesWithListener (step r s)
  unfolding register unregister unregister_all
  step-AgreesWithListener (registers j callback answer) s h k =
      ground (arith, h k, contains-insert j k callback s.callbacks)
  step-AgreesWithListener (unregisters j) s h k =
      ground (arith, h k, contains-erase j k s.callbacks)
  step-AgreesWithListener unregisters_all s h k = refl

  run-steps :
      (rs : List (Request K V)) (s : Shortcuts K V)
      → AgreesWithListener s
      → AgreesWithListener (run rs s)
  unfolding run
  run-steps [] s h = h
  run-steps (r ∷ rs) s h = run-steps rs (step r s) (step-AgreesWithListener r s h)

  abbrev pub no_shortcuts : Shortcuts K V
  no_shortcuts = record { callbacks = []; calls = [] }

  -- After any sequence of requests, whatever the listener answers to each, isRegistered says of each
  -- accelerator what the listener holds for this object.
  pub run-AgreesWithListener :
      (rs : List (Request K V)) (k : K)
      → is_registered k (run rs no_shortcuts) ≡ holds k (run rs no_shortcuts).calls
  unfolding is_registered
  run-AgreesWithListener rs k = run-steps rs no_shortcuts (λ j. refl) k
