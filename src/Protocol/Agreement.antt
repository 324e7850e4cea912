-- ===== src/Protocol/Agreement.antt =====
-- The two threads of atom/browser/api/atom_api_protocol.cc agree: what the UI thread takes to be
-- registered has a custom handler once the IO thread has caught up.
use atom_shell.Common.{
  ◌≡◌, refl, Bool, true, false, Option, none, some, List, [], ◌∷◌, ◌++◌, String, str_eq,
  if◌then◌else◌, Bool-cases, inl, inr,
}
use atom_shell.Common.Dictionary.{string_key, lookup, contains}
use atom_shell.Protocol.Factory.{Handler, builtin, custom, custom_over}
use atom_shell.Protocol.Registry.{
  Task, register_in_io, unregister_in_io, intercept_in_io, unintercept_in_io, Registry, Call,
  intercepts, requests,
}

abbrev pub scheme_of : Task → String
scheme_of (register_in_io s) = s
scheme_of (unregister_in_io s) = s
scheme_of (intercept_in_io s) = s
scheme_of (unintercept_in_io s) = s

abbrev pub IsCustom : Option Handler → Type 0
IsCustom none = ⊥
IsCustom (some (builtin n)) = ⊥
IsCustom (some custom) = Unit
IsCustom (some (custom_over h)) = Unit

-- What a task does to the handler of its scheme.
abbrev pub effect : Task → Option Handler → Option Handler
effect (register_in_io s) none = some custom
effect (register_in_io s) (some h) = some h
effect (unregister_in_io s) o = none
effect (intercept_in_io s) none = none
effect (intercept_in_io s) (some h) = some (custom_over h)
effect (unintercept_in_io s) (some (custom_over h)) = some h
effect (unintercept_in_io s) o = o

-- Taking an interception back reads the handler as a custom one.
abbrev pub Guard : Task → Option Handler → Type 0
Guard (unintercept_in_io s) o = IsCustom o
Guard t o = Unit

abbrev pub apply_to : String → Task → Option Handler → Option Handler
apply_to s t o = if str_eq (scheme_of t) s then effect t o else o

-- The handler of a scheme once the queue has been run.
abbrev pub settle : List Task → String → Option Handler → Option Handler
settle [] s o = o
settle (t ∷ ts) s o = settle ts s (apply_to s t o)

abbrev pub Guarded : List Task → String → Option Handler → Type 0
Guarded [] s o = Unit
Guarded (t ∷ ts) s o = (str_eq (scheme_of t) s ≡ true → Guard t o) × Guarded ts s (apply_to s t o)

settle-append :
    (ts : List Task) (u : Task) (s : String) (o : Option Handler)
    → settle (ts ++ u ∷ []) s o ≡ apply_to s u (settle ts s o)
settle-append [] u s o = refl
settle-append (t ∷ ts) u s o = settle-append ts u s (apply_to s t o)

Guarded-append :
    (ts : List Task) (u : Task) (s : String) (o : Option Handler)
    → Guarded ts s o
    → (str_eq (scheme_of u) s ≡ true → Guard u (settle ts s o))
    → Guarded (ts ++ u ∷ []) s o
Guarded-append [] u s o g h = (h, tt)
Guarded-append (t ∷ ts) u s o g h = (g.0, Guarded-append ts u s (apply_to s t o) g.1 h)

-- No task of the queue is about the scheme.
abbrev pub IsIdle : String → List Task → Type 0
IsIdle s [] = Unit
IsIdle s (t ∷ ts) = (str_eq (scheme_of t) s ≡ false) × IsIdle s ts

pub settle_idle :
    (ts : List Task) (s : String) (o : Option Handler) → IsIdle s ts → settle ts s o ≡ o
settle_idle [] s o h = refl
settle_idle (t ∷ ts) s o h = rw h.0 (settle_idle ts s o h.1)

-- No handler of the content layer lies at the bottom.
abbrev pub OwnHandler : Handler → Type 0
OwnHandler (builtin n) = ⊥
OwnHandler custom = Unit
OwnHandler (custom_over h) = OwnHandler h

abbrev pub IsOwn : Option Handler → Type 0
IsOwn none = Unit
IsOwn (some h) = OwnHandler h

effect-IsOwn : (t : Task) (o : Option Handler) → IsOwn o → IsOwn (effect t o)
effect-IsOwn (register_in_io s) none h = tt
effect-IsOwn (register_in_io s) (some g) h = h
effect-IsOwn (unregister_in_io s) o h = tt
effect-IsOwn (intercept_in_io s) none h = tt
effect-IsOwn (intercept_in_io s) (some g) h = h
effect-IsOwn (unintercept_in_io s) none h = tt
effect-IsOwn (unintercept_in_io s) (some (builtin n)) h = h
effect-IsOwn (unintercept_in_io s) (some custom) h = tt
effect-IsOwn (unintercept_in_io s) (some (custom_over g)) h = h

apply_to-IsOwn : (s : String) (t : Task) (o : Option Handler) → IsOwn o → IsOwn (apply_to s t o)
apply_to-IsOwn s t o h = elim (Bool-cases (str_eq (scheme_of t) s)) [
  | inl e ↦ rw e (effect-IsOwn t o h)
  | inr e ↦ rw e h
]

pub settle-IsOwn :
    (ts : List Task) (s : String) (o : Option Handler) → IsOwn o → IsOwn (settle ts s o)
settle-IsOwn [] s o h = h
settle-IsOwn (t ∷ ts) s o h = settle-IsOwn ts s (apply_to s t o) (apply_to-IsOwn s t o h)

pub register-IsCustom :
    (s : String) (o : Option Handler) → IsOwn o → IsCustom (effect (register_in_io s) o)
register-IsCustom s none h = tt
register-IsCustom s (some (builtin n)) h = h
register-IsCustom s (some custom) h = tt
register-IsCustom s (some (custom_over g)) h = tt

-- No task of the queue will read a handler that is not there or not custom, and each scheme with
-- a callback ends with a custom handler.
abbrev pub Agrees : Registry → Type 0
Agrees r =
    (s : String)
    → Guarded r.io s (lookup s r.job_factory)
      × (contains s r.protocol_handlers ≡ true → IsCustom (settle r.io s (lookup s r.job_factory)))

-- The callers' discipline: a scheme is intercepted only when none of its tasks is pending, and
-- requests come only for schemes with a callback.
abbrev pub IsOrderly : Call → Registry → Type 0
IsOrderly (intercepts s callback) r = IsIdle s r.io
IsOrderly (requests s) r = contains s r.protocol_handlers ≡ true
IsOrderly c r = Unit

abbrev pub SchemeAgrees : Bool → List Task → String → Option Handler → Type 0
SchemeAgrees has ts s o = Guarded ts s o × (has ≡ true → IsCustom (settle ts s o))

-- A call on the UI thread posts one task `u`. It keeps a scheme's agreement if the task may be
-- run after those pending, and leaves a custom handler where the scheme has a callback then.
pub post-agrees :
    (ts : List Task) (u : Task) (s : String) (o : Option Handler) (has has' : Bool)
    → SchemeAgrees has ts s o
    → (str_eq (scheme_of u) s ≡ false → has' ≡ has)
    → (str_eq (scheme_of u) s ≡ true
        → Guard u (settle ts s o) × (has' ≡ true → IsCustom (effect u (settle ts s o))))
    → SchemeAgrees has' (ts ++ u ∷ []) s o
post-agrees ts u s o has has' a other same = (
  Guarded-append ts u s o a.0 (λ e. (same e).0),
  λ h. rw (settle-append ts u s o) (elim (Bool-cases (str_eq (scheme_of u) s)) [
    | inl e ↦ rw e ((same e).1 h)
    | inr e ↦ rw e (a.1 (rw (other e) at h))
  ]),
)
