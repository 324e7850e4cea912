-- ===== src/Protocol/Orderly.antt =====
-- Every orderly interleaving of atom/browser/api/atom_api_protocol.cc keeps the threads in
-- agreement and reads no missing handler.
use atom_shell.Common.{
  ℕ, ◌≡◌, refl, ap, Bool, true, false, Option, none, some, List, [], ◌∷◌, String, arith, str_eq,
  eq_iff, if◌then◌else◌, Bool-cases, Option-cases, inl, inr, ◌||◌, ◌⊎◌, ◌≢◌,
}
use atom_shell.Common.Dictionary.{
  string_key, lookup, contains, lookup-insert, lookup-erase, contains-insert, contains-erase,
  contains-lookup,
}
use atom_shell.Protocol.Factory.{
  Handler, builtin, custom, custom_over, Factory, set_protocol_handler, replace_protocol,
}
use atom_shell.Protocol.Registry.{
  Task, register_in_io, unregister_in_io, intercept_in_io, unintercept_in_io, Registry,
  unintercept_found, run_task, Event, get_protocol_callback, intercept_protocol, register_protocol,
  turn_ui, unintercept_protocol, unregister_protocol, post_ui, turn_io, intercept_protocol_in_io,
  unintercept_protocol_in_io, Call, registers, intercepts, unregisters, unintercepts, requests,
  io_turn, ui_turn, step, run,
}
use atom_shell.Protocol.Agreement.{
  scheme_of, IsCustom, effect, Guard, apply_to, settle, IsIdle, settle_idle, settle-IsOwn,
  register-IsCustom, Agrees, IsOrderly, SchemeAgrees, post-agrees,
}

-- A task does to the factory what `effect` says, to its own scheme alone.
abbrev pub Performs : Task → Registry → Registry → Type 0
Performs t r r' =
    (r'.io ≡ r.io)
    × (r'.protocol_handlers ≡ r.protocol_handlers)
    × ((s : String) → lookup s r'.job_factory ≡ apply_to s t (lookup s r.job_factory))

module _ (k s : String) (f : Factory) where
  lookup-register :
      lookup s (set_protocol_handler k (some custom) f).0
      ≡ apply_to s (register_in_io k) (lookup s f)
  unfolding set_protocol_handler
  lookup-register = ground (arith, lookup-insert k s custom f, contains-lookup k f, eq_iff k s)

  lookup-unregister :
      lookup s (set_protocol_handler k none f).0 ≡ apply_to s (unregister_in_io k) (lookup s f)
  unfolding set_protocol_handler
  lookup-unregister = ground (arith, lookup-erase k s f, contains-lookup k f, eq_iff k s)

  lookup-replace :
      (h g : Handler)
      → lookup k f ≡ some g
      → lookup s (replace_protocol k h f).0 ≡ (if str_eq k s then some h else lookup s f)
  unfolding replace_protocol
  lookup-replace h g e = ground (arith, lookup-insert k s h f, contains-lookup k f, eq_iff k s)

unintercept-Performs :
    (k : String) (r : Registry) (o : Option Handler)
    → lookup k r.job_factory ≡ o
    → IsCustom o
    → (r' : Registry) × (unintercept_protocol_in_io k r ≡ some r')
      × Performs (unintercept_in_io k) r r'
unfolding unintercept_protocol_in_io
unintercept-Performs k r (some custom) e g =
    let kept = post_ui "error" "The protocol is not intercpeted" r in
    (kept, ap (unintercept_found k r) e, (refl, refl, λ s. ground (arith, eq_iff k s)))
unintercept-Performs k r (some (custom_over h)) e g = (
  post_ui "unintercepted" k (record r { job_factory = (replace_protocol k h r.job_factory).0 }),
  ap (unintercept_found k r) e,
  (
    refl,
    refl,
    λ s. ground (arith, eq_iff k s, lookup-replace k s r.job_factory h (custom_over h) e),
  ),
)
unintercept-Performs k r (some (builtin n)) e g = absurd g
unintercept-Performs k r none e g = absurd g

pub run_task-Performs :
    (t : Task) (r : Registry)
    → Guard t (lookup (scheme_of t) r.job_factory)
    → (r' : Registry) × (run_task t r ≡ some r') × Performs t r r'
unfolding run_task
run_task-Performs (register_in_io k) r g =
    (_, refl, (refl, refl, λ s. lookup-register k s r.job_factory))
run_task-Performs (unregister_in_io k) r g =
    (_, refl, (refl, refl, λ s. lookup-unregister k s r.job_factory))
run_task-Performs (intercept_in_io k) r g = elim (Option-cases (lookup k r.job_factory)) [
  | inl e ↦
      (_, refl, rw (e, intercept_protocol_in_io) (refl, refl, λ s. ground (arith, eq_iff k s)))
  | inr (h, e) ↦ (
    _,
    refl,
    rw (e, intercept_protocol_in_io)
        (
          refl,
          refl,
          λ s. ground (arith, eq_iff k s, lookup-replace k s r.job_factory (custom_over h) h e),
        ),
  )
]
run_task-Performs (unintercept_in_io k) r g =
    unintercept-Performs k r (lookup k r.job_factory) refl g

io_turn-Agrees :
    (ts : List Task) (r : Registry)
    → r.io ≡ ts
    → Agrees r
    → (r' : Registry) × (turn_io ts r ≡ some r') × Agrees r'
unfolding turn_io
io_turn-Agrees [] r e a = (r, refl, a)
io_turn-Agrees (t ∷ ts) r e a =
    let here = λ (s : String). rw e at (a s) in
    let (r', ran, (io, handlers, does)) =
      run_task-Performs t (record r { io = ts })
        ((here (scheme_of t)).0.0 ((eq_iff (scheme_of t) (scheme_of t)).1 refl)) in
    (r', ran, λ s. rw (io, handlers, does s) ((here s).0.1, (here s).1))

intercept-IsCustom :
    (k : String) (o : Option Handler) → o ≢ none → IsCustom (effect (intercept_in_io k) o)
intercept-IsCustom k none h = h refl
intercept-IsCustom k (some g) h = tt

module _ (k : String) (r : Registry) (a : Agrees r) where
  unhandled :
      (s : String) (known net : Bool)
      → known || (contains k r.job_factory || net) ≡ false
      → str_eq k s ≡ true
      → lookup s r.job_factory ≡ none
  unhandled s known net e same = ground (arith, contains-lookup k r.job_factory, eq_iff k s)

  register-Agrees : (net : String → Bool) (n : ℕ) → Agrees (register_protocol net k n r).0
  unfolding register_protocol
  register-Agrees net n s =
      elim (Bool-cases (contains k r.protocol_handlers || (contains k r.job_factory || net k))) [
        | inl e ↦ rw e (a s)
        | inr e ↦ rw e (
            post-agrees r.io (register_in_io k) s (lookup s r.job_factory)
              (contains s r.protocol_handlers) _ (a s)
              (λ other. rw (contains-insert k s (some n) r.protocol_handlers, other))
              (λ same. (
                tt,
                λ _. register-IsCustom k _ (settle-IsOwn r.io s _ (rw (unhandled s _ _ e same) tt)),
              )))
      ]

  intercept-Agrees : (n : ℕ) → IsIdle k r.io → Agrees (intercept_protocol k n r).0
  unfolding intercept_protocol
  intercept-Agrees n idle s =
      intercepted (Bool-cases (contains k r.job_factory))
        (Bool-cases (contains k r.protocol_handlers))
    where
      custom_below :
          str_eq k s ≡ true
          → contains k r.job_factory ≡ true
          → IsCustom (effect (intercept_in_io k) (settle r.io s (lookup s r.job_factory)))
      custom_below same e =
          let q = (eq_iff k s).0 same in
          rw (← q, settle_idle r.io k (lookup k r.job_factory) idle)
            (intercept-IsCustom k (lookup k r.job_factory)
              (λ missing. cc ((contains-lookup k r.job_factory).1 missing, e)))

      intercepted :
          (contains k r.job_factory ≡ true) ⊎ (contains k r.job_factory ≡ false)
          → (contains k r.protocol_handlers ≡ true) ⊎ (contains k r.protocol_handlers ≡ false)
          → SchemeAgrees
              (contains s (intercept_protocol k n r).0.protocol_handlers)
              (intercept_protocol k n r).0.io
              s
              (lookup s (intercept_protocol k n r).0.job_factory)
      intercepted (inr e) _ = rw e (a s)
      intercepted (inl e) (inl f) = rw (e, f) (a s)
      intercepted (inl e) (inr f) =
          rw (e, f)
            (post-agrees r.io (intercept_in_io k) s (lookup s r.job_factory)
              (contains s r.protocol_handlers) _ (a s)
              (λ other. rw (contains-insert k s (some n) r.protocol_handlers, other))
              (λ same. (tt, λ _. custom_below same e)))

  unregister-Agrees : Agrees (unregister_protocol k r).0
  unfolding unregister_protocol
  unregister-Agrees s = elim (Bool-cases (contains k r.protocol_handlers)) [
    | inr e ↦ rw e (a s)
    | inl e ↦ rw e (
        post-agrees r.io (unregister_in_io k) s (lookup s r.job_factory)
          (contains s r.protocol_handlers) _ (a s)
          (λ other. rw (contains-erase k s r.protocol_handlers, other))
          (λ same. (tt, λ h. cc (contains-erase k s r.protocol_handlers, same, h))))
  ]

  unintercept-Agrees : Agrees (unintercept_protocol k r).0
  unfolding unintercept_protocol
  unintercept-Agrees s = elim (Bool-cases (contains k r.protocol_handlers)) [
    | inr e ↦ rw e (a s)
    | inl e ↦ rw e (
        post-agrees r.io (unintercept_in_io k) s (lookup s r.job_factory)
          (contains s r.protocol_handlers) _ (a s)
          (λ other. rw (contains-erase k s r.protocol_handlers, other))
          (λ same. (
            (a s).1 (ground (arith, eq_iff k s)),
            λ h. cc (contains-erase k s r.protocol_handlers, same, h),
          )))
  ]

  request-Agrees : contains k r.protocol_handlers ≡ true → Agrees (get_protocol_callback k r).0
  unfolding get_protocol_callback
  request-Agrees h s = elim (Option-cases (lookup k r.protocol_handlers)) [
    | inl e ↦ cc (h, (contains-lookup k r.protocol_handlers).1 e)
    | inr (n, e) ↦ rw (e, get_protocol_callback) (a s)
  ]

turn_ui-Agrees : (r : Registry) (es : List Event) → Agrees r → Agrees (turn_ui es r)
unfolding turn_ui
turn_ui-Agrees r [] a = a
turn_ui-Agrees r (e ∷ es) a = a

-- An orderly call succeeds and keeps the agreement.
step-Agrees :
    (net_handles : String → Bool) (c : Call) (r : Registry)
    → Agrees r
    → IsOrderly c r
    → (r' : Registry) × (step net_handles c r ≡ some r') × Agrees r'
unfolding step
step-Agrees net (registers k n) r a h = (_, refl, register-Agrees k r a net n)
step-Agrees net (intercepts k n) r a h = (_, refl, intercept-Agrees k r a n h)
step-Agrees net (unregisters k) r a h = (_, refl, unregister-Agrees k r a)
step-Agrees net (unintercepts k) r a h = (_, refl, unintercept-Agrees k r a)
step-Agrees net (requests k) r a h = (_, refl, request-Agrees k r a h)
step-Agrees net io_turn r a h = io_turn-Agrees r.io r refl a
step-Agrees net ui_turn r a h = (_, refl, turn_ui-Agrees r r.ui a)

-- An interleaving whose calls are orderly where they are made.
pub data Orderly (net_handles : String → Bool) : List Call → Registry → Type 0 where
  done : {r : Registry} → Orderly net_handles [] r
  next :
      {c : Call} {cs : List Call} {r : Registry}
      → IsOrderly c r
      → ((r' : Registry) → step net_handles c r ≡ some r' → Orderly net_handles cs r')
      → Orderly net_handles (c ∷ cs) r

-- In every interleaving of calls, requests and turns of the two threads in which a scheme is
-- intercepted only while none of its tasks is pending and requested only while it has a callback,
-- no task meets a missing handler or one of another class, and after it each scheme with a callback
-- has a custom handler once the pending tasks have been run.
pub run-Agrees :
    (net_handles : String → Bool) (cs : List Call) (r : Registry)
    → Agrees r
    → Orderly net_handles cs r
    → (r' : Registry) × (run net_handles cs r ≡ some r') × Agrees r'
unfolding run
run-Agrees net [] r a o = (r, refl, a)
run-Agrees net (c ∷ cs) r a (next h more) =
    let (r', ran, a') = step-Agrees net c r a h in
    let (r'', ran', a'') = run-Agrees net cs r' a' (more r' ran) in (r'', rw ran ran', a'')
