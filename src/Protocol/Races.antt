-- ===== src/Protocol/Races.antt =====
-- Where the two threads of atom/browser/api/atom_api_protocol.cc come apart.
use atom_shell.Common.{ℕ, ◌≡◌, Bool, true, none, some, [], ◌∷◌, ◌++◌, String}
use atom_shell.Common.Dictionary.{
  string_key, lookup, contains, insert, erase, lookup-insert, lookup-erase, contains-insert,
  contains-erase, same_refl,
}
use atom_shell.Protocol.Factory.{custom}
use atom_shell.Protocol.Registry.{
  Registry, intercepts, unregisters, unintercepts, requests, io_turn, run, intercept_protocol_in_io,
  unintercept_protocol_in_io, get_protocol_callback, thrown, register_protocol,
}

module _ (net : String → Bool) (k : String) (n : ℕ) (r : Registry) (idle : r.io ≡ [])
    (known : contains k r.protocol_handlers ≡ true) where
  -- A registered scheme that is unregistered and at once intercepted, and whose interception is
  -- taken back after the IO thread has caught up, makes the IO thread dereference a null handler.
  pub intercept_after_unregister :
      contains k r.job_factory ≡ true
      → run net
          (unregisters k ∷ intercepts k n ∷ io_turn ∷ io_turn ∷ unintercepts k ∷ io_turn ∷ [])
          r
        ≡ none
  unfolding run
  intercept_after_unregister there = rw (
    known,
    idle,
    there,
    contains-erase k k r.protocol_handlers,
    same_refl k,
    there,
    intercept_protocol_in_io,
    lookup-erase k k r.job_factory,
    same_refl k,
    contains-insert k k (some n) (erase k r.protocol_handlers),
    same_refl k,
    unintercept_protocol_in_io,
    there,
    lookup-erase k k r.job_factory,
    same_refl k,
  )

  -- Taking back the interception of a scheme that was registered, not intercepted, forgets its
  -- callback but leaves its handler installed; the next request gives the scheme a null callback.
  pub unintercept_registered :
      lookup k r.job_factory ≡ some custom
      → (r' : Registry) × (run net (unintercepts k ∷ io_turn ∷ requests k ∷ []) r ≡ some r')
        × (lookup k r'.job_factory ≡ some custom)
        × (lookup k r'.protocol_handlers ≡ some none)
        × ((register_protocol net k n r').1 ≡ thrown "The scheme is already registered")
  unfolding run
  unintercept_registered there =
      let r' = record r {
        protocol_handlers = insert k none (erase k r.protocol_handlers);
        io = [];
        ui =
            r.ui
            ++ (record { event = "error"; parameter = "The protocol is not intercpeted" }) ∷ [];
      } in
      (
        r',
        rw (
          known,
          idle,
          unintercept_protocol_in_io,
          there,
          get_protocol_callback,
          lookup-erase k k r.protocol_handlers,
          same_refl k,
        ),
        there,
        rw (lookup-insert k k none (erase k r.protocol_handlers), same_refl k),
        rw (contains-insert k k none (erase k r.protocol_handlers), same_refl k),
      )
