-- ===== src/Protocol/Tests.antt =====
-- Runs of the protocol modules at concrete schemes.
use atom_shell.Common.{◌≡◌, refl, Bool, false, none, some, [], ◌∷◌, String}
use atom_shell.Common.Dictionary.{string_key, lookup}
use atom_shell.Protocol.Factory.{builtin, custom}
use atom_shell.Protocol.Registry.{
  Registry, intercepts, unintercepts, registers, unregisters, requests, io_turn, run, thrown,
  register_protocol,
}
use atom_shell.Protocol.Agreement.{Agrees}
use atom_shell.Protocol.Orderly.{done, next, run-Agrees}
use atom_shell.Protocol.Roundtrip.{SameProtocols, intercepts-unintercepts}
use atom_shell.Protocol.Races.{intercept_after_unregister, unintercept_registered}
use atom_shell.Protocol.Jobs.{js_other, builtin_job}
use atom_shell.Protocol.Serving.{serve, serve-intercepts}

abbrev nothing_else : String → Bool
nothing_else s = false

-- "http" is built in.
abbrev fresh : Registry
fresh = record {
  protocol_handlers = [];
  job_factory = ("http", builtin 1) ∷ [];
  io = [];
  ui = [];
  emitted = [];
}

-- "atom" was registered with callback 7.
abbrev registered : Registry
registered = record {
  protocol_handlers = ("atom", some 7) ∷ [];
  job_factory = ("atom", custom) ∷ ("http", builtin 1) ∷ [];
  io = [];
  ui = [];
  emitted = [];
}

fresh-Agrees : Agrees fresh
fresh-Agrees s = (tt, λ h. cc)

run-Agrees_example :
    (r' : Registry) × (run nothing_else (registers "atom" 7 ∷ io_turn ∷ []) fresh ≡ some r')
    × Agrees r'
run-Agrees_example =
    run-Agrees nothing_else (registers "atom" 7 ∷ io_turn ∷ []) fresh fresh-Agrees
      (next tt λ r e. next tt λ r' e'. done)

intercepts-unintercepts_example :
    (r' : Registry) × (run nothing_else
        (intercepts "http" 3 ∷ io_turn ∷ unintercepts "http" ∷ io_turn ∷ [])
        fresh
      ≡ some r')
    × SameProtocols fresh r'
intercepts-unintercepts_example = intercepts-unintercepts nothing_else "http" 3 fresh refl refl refl

intercept_after_unregister_example :
    run nothing_else
      (unregisters "atom"
        ∷ intercepts "atom" 8
        ∷ io_turn
        ∷ io_turn
        ∷ unintercepts "atom"
        ∷ io_turn
        ∷ [])
      registered
    ≡ none
intercept_after_unregister_example =
    intercept_after_unregister nothing_else "atom" 8 registered refl refl refl

unintercept_registered_example :
    (r' : Registry) × (run nothing_else
        (unintercepts "atom" ∷ io_turn ∷ requests "atom" ∷ [])
        registered
      ≡ some r')
    × (lookup "atom" r'.job_factory ≡ some custom)
    × (lookup "atom" r'.protocol_handlers ≡ some none)
    × ((register_protocol nothing_else "atom" 8 r').1 ≡ thrown "The scheme is already registered")
unintercept_registered_example =
    unintercept_registered nothing_else "atom" 8 registered refl refl refl

serve-intercepts_example :
    (r' : Registry) × (run nothing_else (intercepts "http" 3 ∷ io_turn ∷ []) fresh ≡ some r')
    × (serve (λ n. some 5) (λ n. js_other) "http" r'
        ≡ serve (λ n. some 5) (λ n. js_other) "http" fresh)
    × (serve (λ n. some 5) (λ n. js_other) "http" fresh ≡ some (builtin_job 5))
serve-intercepts_example =
    serve-intercepts nothing_else (λ n. some 5) (λ n. js_other) "http" 3 1 5 fresh refl refl refl
      refl refl
