-- ===== src/Protocol/Registry.antt =====
-- api::Protocol: the JavaScript handlers on the UI thread and their installation on the IO thread
-- (atom/browser/api/atom_api_protocol.cc). Each thread's posted tasks are a queue, oldest first;
-- an interleaving is a sequence of calls and turns.
use atom_shell.Common.{
  ℕ, Bool, ◌||◌, Option, none, some, List, [], ◌∷◌, ◌++◌, String, if◌then◌else◌,
}
use atom_shell.Common.Dictionary.{string_key, lookup, contains, insert, erase}
use atom_shell.Protocol.Factory.{
  Handler, builtin, custom, custom_over, Factory, set_protocol_handler, replace_protocol,
  get_protocol_handler, has_protocol_handler, is_handled_protocol,
}

-- The methods posted to the IO thread.
pub data Task : Type 0 where
  register_in_io unregister_in_io intercept_in_io unintercept_in_io : String → Task

-- EmitEventInUI(event, parameter).
pub record Event : Type 0 where
  pub event : String
  pub parameter : String

-- A callback is a number; `none` is the null callback that `operator[]` makes.
pub record Registry : Type 0 where
  pub protocol_handlers : List (String × Option ℕ)
  pub job_factory : Factory
  pub io : List Task
  pub ui : List Event
  pub emitted : List Event

pub data Reply : Type 0 where
  returned : Reply
  thrown : String → Reply

post_io : Task → Registry → Registry
post_io t r = record r { io = r.io ++ t ∷ [] }

unfoldable pub post_ui : String → String → Registry → Registry
post_ui event scheme r = record r {
  ui = r.ui ++ (record { event = event; parameter = scheme }) ∷ [];
}

unfoldable pub register_protocol : (String → Bool) → String → ℕ → Registry → Registry × Reply
unfolding post_io is_handled_protocol
register_protocol net_handles scheme callback r =
    if contains scheme r.protocol_handlers || is_handled_protocol net_handles scheme r.job_factory
    then (r, thrown "The scheme is already registered")
    else (
      post_io (register_in_io scheme)
          (record r { protocol_handlers = insert scheme (some callback) r.protocol_handlers }),
      returned,
    )

unfoldable pub unregister_protocol : String → Registry → Registry × Reply
unfolding post_io
unregister_protocol scheme r =
    if contains scheme r.protocol_handlers
    then (
      post_io (unregister_in_io scheme)
          (record r { protocol_handlers = erase scheme r.protocol_handlers }),
      returned,
    )
    else (r, thrown "The scheme has not been registered")

unfoldable pub intercept_protocol : String → ℕ → Registry → Registry × Reply
unfolding post_io has_protocol_handler
intercept_protocol scheme callback r =
    if has_protocol_handler scheme r.job_factory
    then (if contains scheme r.protocol_handlers
        then (r, thrown "Cannot intercept custom procotols")
        else (
          post_io (intercept_in_io scheme)
              (record r { protocol_handlers = insert scheme (some callback) r.protocol_handlers }),
          returned,
        ))
    else (r, thrown "Scheme does not exist.")

unfoldable pub unintercept_protocol : String → Registry → Registry × Reply
unfolding post_io
unintercept_protocol scheme r =
    if contains scheme r.protocol_handlers
    then (
      post_io (unintercept_in_io scheme)
          (record r { protocol_handlers = erase scheme r.protocol_handlers }),
      returned,
    )
    else (r, thrown "The scheme has not been registered")

-- `return protocol_handlers_[scheme]`: a missing scheme gets a null callback.
unfoldable pub get_protocol_callback : String → Registry → Registry × Option ℕ
get_protocol_callback scheme r = elim (lookup scheme r.protocol_handlers) [
  | some callback ↦ (r, callback)
  | none ↦ (record r { protocol_handlers = insert scheme none r.protocol_handlers }, none)
]

unfoldable pub register_protocol_in_io : String → Registry → Registry
unfolding post_ui set_protocol_handler
register_protocol_in_io scheme r =
    post_ui "registered" scheme
      (record r { job_factory = (set_protocol_handler scheme (some custom) r.job_factory).0 })

unfoldable pub unregister_protocol_in_io : String → Registry → Registry
unfolding post_ui set_protocol_handler
unregister_protocol_in_io scheme r =
    post_ui "unregistered" scheme
      (record r { job_factory = (set_protocol_handler scheme none r.job_factory).0 })

unfoldable pub intercept_protocol_in_io : String → Registry → Registry
unfolding post_ui replace_protocol get_protocol_handler
intercept_protocol_in_io scheme r = elim (get_protocol_handler scheme r.job_factory) [
  | none ↦ post_ui "error" "There is no protocol handler to intercpet" r
  | some original ↦
      post_ui "intercepted" scheme (record r {
        job_factory = (replace_protocol scheme (custom_over original) r.job_factory).0;
      })
]

-- The handler found is cast to CustomProtocolHandler and read: no handler is a null dereference
-- and a handler of another class an invalid cast, `none` here.
unfoldable pub unintercept_found : String → Registry → Option Handler → Option Registry
unfolding post_ui replace_protocol
unintercept_found scheme r none = none
unintercept_found scheme r (some (builtin n)) = none
unintercept_found scheme r (some custom) =
    some (post_ui "error" "The protocol is not intercpeted" r)
unintercept_found scheme r (some (custom_over original)) = some (
    post_ui "unintercepted" scheme
      (record r { job_factory = (replace_protocol scheme original r.job_factory).0 }))

unfoldable pub unintercept_protocol_in_io : String → Registry → Option Registry
unfolding unintercept_found get_protocol_handler
unintercept_protocol_in_io scheme r =
    unintercept_found scheme r (get_protocol_handler scheme r.job_factory)

unfoldable pub run_task : Task → Registry → Option Registry
unfolding register_protocol_in_io unregister_protocol_in_io intercept_protocol_in_io
    unintercept_protocol_in_io
run_task (register_in_io scheme) r = some (register_protocol_in_io scheme r)
run_task (unregister_in_io scheme) r = some (unregister_protocol_in_io scheme r)
run_task (intercept_in_io scheme) r = some (intercept_protocol_in_io scheme r)
run_task (unintercept_in_io scheme) r = unintercept_protocol_in_io scheme r

unfoldable pub turn_io : List Task → Registry → Option Registry
unfolding run_task
turn_io [] r = some r
turn_io (t ∷ rest) r = run_task t (record r { io = rest })

unfoldable pub turn_ui : List Event → Registry → Registry
turn_ui [] r = r
turn_ui (e ∷ rest) r = record r { ui = rest; emitted = r.emitted ++ e ∷ [] }

-- What can happen: a call from JavaScript, a request that looks its callback up, or a turn of one
-- of the two threads.
pub data Call : Type 0 where
  registers intercepts : String → ℕ → Call
  unregisters unintercepts requests : String → Call
  io_turn ui_turn : Call

unfoldable pub step : (String → Bool) → Call → Registry → Option Registry
unfolding register_protocol unregister_protocol intercept_protocol unintercept_protocol
    get_protocol_callback turn_io turn_ui
step net_handles (registers scheme callback) r =
    some (register_protocol net_handles scheme callback r).0
step net_handles (intercepts scheme callback) r = some (intercept_protocol scheme callback r).0
step net_handles (unregisters scheme) r = some (unregister_protocol scheme r).0
step net_handles (unintercepts scheme) r = some (unintercept_protocol scheme r).0
step net_handles (requests scheme) r = some (get_protocol_callback scheme r).0
step net_handles io_turn r = turn_io r.io r
step net_handles ui_turn r = some (turn_ui r.ui r)

infixl 5 ◌>>=◌
abbrev pub ◌>>=◌ {ℓ κ} : {A : Type ℓ} {B : Type κ} → Option A → (A → Option B) → Option B
none >>= k = none
some a >>= k = k a

unfoldable pub run : (String → Bool) → List Call → Registry → Option Registry
unfolding step
run net_handles [] r = some r
run net_handles (c ∷ cs) r = step net_handles c r >>= λ r'. run net_handles cs r'
