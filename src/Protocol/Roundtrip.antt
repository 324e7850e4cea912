-- ===== src/Protocol/Roundtrip.antt =====
-- Taking back what atom/browser/api/atom_api_protocol.cc installed leaves nothing behind.
use atom_shell.Common.{
  ℕ, ◌≡◌, refl, Bool, true, false, Option, none, some, List, [], ◌∷◌, String, arith, eq_iff,
}
use atom_shell.Common.Dictionary.{
  string_key, lookup, contains, insert, erase, lookup-insert, lookup-erase, contains-insert,
  contains-lookup, same_refl,
}
use atom_shell.Protocol.Factory.{Handler, custom_over}
use atom_shell.Protocol.Registry.{
  Task, register_in_io, unregister_in_io, intercept_in_io, unintercept_in_io, Registry, Call,
  registers, intercepts, unregisters, unintercepts, io_turn, step, run,
}
use atom_shell.Protocol.Agreement.{apply_to, Guard, scheme_of}
use atom_shell.Protocol.Orderly.{run_task-Performs}

-- The same handlers on both threads, and nothing pending.
pub record SameProtocols (r r' : Registry) : Type 0 where
  pub installed : (s : String) → lookup s r'.job_factory ≡ lookup s r.job_factory
  pub known : (s : String) → lookup s r'.protocol_handlers ≡ lookup s r.protocol_handlers
  pub idle : r'.io ≡ []

pub run_two :
    (net : String → Bool) (c₁ c₂ : Call) (r r₁ r₂ : Registry)
    → step net c₁ r ≡ some r₁
    → step net c₂ r₁ ≡ some r₂
    → run net (c₁ ∷ c₂ ∷ []) r ≡ some r₂
unfolding run
run_two net c₁ c₂ r r₁ r₂ e₁ e₂ = rw (e₁, e₂)

run_four :
    (net : String → Bool) (c₁ c₂ c₃ c₄ : Call) (r r₁ r₂ r₃ r₄ : Registry)
    → step net c₁ r ≡ some r₁
    → step net c₂ r₁ ≡ some r₂
    → step net c₃ r₂ ≡ some r₃
    → step net c₄ r₃ ≡ some r₄
    → run net (c₁ ∷ c₂ ∷ c₃ ∷ c₄ ∷ []) r ≡ some r₄
unfolding run
run_four net c₁ c₂ c₃ c₄ r r₁ r₂ r₃ r₄ e₁ e₂ e₃ e₄ = rw (e₁, e₂, e₃, e₄)

module _ (net : String → Bool) (k : String) (n : ℕ) (r : Registry) (idle : r.io ≡ []) where
  -- A call that posts `t` with nothing pending, and the turn that runs it.
  pub posted :
      (t : Task) (m : List (String × Option ℕ))
      → Guard t (lookup (scheme_of t) r.job_factory)
      → (r' : Registry) × (step net io_turn (record r { protocol_handlers = m; io = t ∷ [] })
          ≡ some r')
        × (r'.protocol_handlers ≡ m)
        × (r'.io ≡ [])
        × ((s : String) → lookup s r'.job_factory ≡ apply_to s t (lookup s r.job_factory))
  unfolding step
  posted t m g =
      let (r', ran, (io, handlers, does)) =
        run_task-Performs t (record r { protocol_handlers = m; io = [] }) g in
      (r', ran, handlers, io, does)

  pub step-intercepts :
      contains k r.job_factory ≡ true
      → contains k r.protocol_handlers ≡ false
      → step net (intercepts k n) r
        ≡ some (record r {
          protocol_handlers = insert k (some n) r.protocol_handlers;
          io = intercept_in_io k ∷ [];
        })
  unfolding step
  step-intercepts e f = rw (e, f, idle)

  step-unintercepts :
      contains k r.protocol_handlers ≡ true
      → step net (unintercepts k) r
        ≡ some (record r {
          protocol_handlers = erase k r.protocol_handlers;
          io = unintercept_in_io k ∷ [];
        })
  unfolding step
  step-unintercepts e = rw (e, idle)

  pub step-registers :
      contains k r.job_factory ≡ false
      → contains k r.protocol_handlers ≡ false
      → net k ≡ false
      → step net (registers k n) r
        ≡ some (record r {
          protocol_handlers = insert k (some n) r.protocol_handlers;
          io = register_in_io k ∷ [];
        })
  unfolding step
  step-registers e f g = rw (e, f, g, idle)

  step-unregisters :
      contains k r.protocol_handlers ≡ true
      → step net (unregisters k) r
        ≡ some (record r {
          protocol_handlers = erase k r.protocol_handlers;
          io = unregister_in_io k ∷ [];
        })
  unfolding step
  step-unregisters e = rw (e, idle)

lookup-erase-insert :
    (k s : String) (n : ℕ) (m m' : List (String × Option ℕ))
    → contains k m ≡ false
    → m' ≡ insert k (some n) m
    → lookup s (erase k m') ≡ lookup s m
lookup-erase-insert k s n m m' e q = rw q (
    ground (
      arith,
      lookup-erase k s (insert k (some n) m),
      lookup-insert k s (some n) m,
      contains-lookup k m,
      eq_iff k s,
    ))

known_inserted :
    (k : String) (n : ℕ) (m m' : List (String × Option ℕ))
    → m' ≡ insert k (some n) m
    → contains k m' ≡ true
known_inserted k n m m' q = rw (q, contains-insert k k (some n) m, same_refl k)

-- Where a built-in or custom scheme without a callback has a handler and nothing is pending, an
-- interception, taken back after the IO thread has run it, succeeds throughout and ends, once the
-- IO thread has run that too, with every scheme's handler and callback as they were.
pub intercepts-unintercepts :
    (net : String → Bool) (k : String) (n : ℕ) (r : Registry)
    → r.io ≡ []
    → contains k r.job_factory ≡ true
    → contains k r.protocol_handlers ≡ false
    → (r' : Registry) × (run net (intercepts k n ∷ io_turn ∷ unintercepts k ∷ io_turn ∷ []) r
        ≡ some r')
      × SameProtocols r r'
intercepts-unintercepts net k n r idle e f =
    let (r₂, ran, handlers, io, does) =
      posted net k n r idle (intercept_in_io k) (insert k (some n) r.protocol_handlers) tt in
    let (h, there) = found (lookup k r.job_factory) refl in
    let over : lookup k r₂.job_factory ≡ some (custom_over h) = rw (does k, same_refl k, there) in
    let (r₄, ran', handlers', io', does') =
      posted net k n r₂ io (unintercept_in_io k) (erase k r₂.protocol_handlers) (rw over tt) in
    (
      r₄,
      run_four net _ _ _ _ r _ r₂ _ r₄ (step-intercepts net k n r idle e f) ran
          (step-unintercepts net k n r₂ io (known_inserted k n r.protocol_handlers _ handlers))
          ran',
      record {
        installed = λ s. ground (arith, does s, does' s, eq_iff k s);
        known = λ s.
            rw handlers'
              (lookup-erase-insert k s n r.protocol_handlers r₂.protocol_handlers f handlers);
        idle = io';
      },
    )
  where
    found :
        (o : Option Handler)
        → lookup k r.job_factory ≡ o
        → (h : Handler) × (lookup k r.job_factory ≡ some h)
    found none missing = cc ((contains-lookup k r.job_factory).1 missing, e)
    found (some h) there = (h, there)

-- The same of a registration of a scheme that nothing handles.
pub registers-unregisters :
    (net : String → Bool) (k : String) (n : ℕ) (r : Registry)
    → r.io ≡ []
    → contains k r.job_factory ≡ false
    → contains k r.protocol_handlers ≡ false
    → net k ≡ false
    → (r' : Registry) × (run net (registers k n ∷ io_turn ∷ unregisters k ∷ io_turn ∷ []) r
        ≡ some r')
      × SameProtocols r r'
registers-unregisters net k n r idle e f g =
    let (r₂, ran, handlers, io, does) =
      posted net k n r idle (register_in_io k) (insert k (some n) r.protocol_handlers) tt in
    let (r₄, ran', handlers', io', does') =
      posted net k n r₂ io (unregister_in_io k) (erase k r₂.protocol_handlers) tt in
    (
      r₄,
      run_four net _ _ _ _ r _ r₂ _ r₄ (step-registers net k n r idle e f g) ran
          (step-unregisters net k n r₂ io (known_inserted k n r.protocol_handlers _ handlers)) ran',
      record {
        installed =
            λ s. ground (arith, does s, does' s, eq_iff k s, contains-lookup k r.job_factory);
        known = λ s.
            rw handlers'
              (lookup-erase-insert k s n r.protocol_handlers r₂.protocol_handlers f handlers);
        idle = io';
      },
    )
