-- ===== src/Protocol/Serving.antt =====
-- A request of a scheme from AtomURLRequestJobFactory::MaybeCreateJobWithProtocolHandler to its real
-- job (atom/browser/net/atom_url_request_job_factory.cc, atom/browser/api/atom_api_protocol.cc).
use atom_shell.Common.{ℕ, ◌≡◌, Bool, true, false, Option, some, [], ◌∷◌, String, arith}
use atom_shell.Common.Dictionary.{
  string_key, lookup, contains, insert, lookup-insert, contains-lookup, same_refl,
}
use atom_shell.Protocol.Factory.{builtin, custom_over, get_protocol_handler}
use atom_shell.Protocol.Registry.{
  Registry, intercept_in_io, intercepts, io_turn, run, ◌>>=◌, get_protocol_callback,
}
use atom_shell.Protocol.Jobs.{
  JsResult, js_other, RealJob, builtin_job, maybe_create_job, get_job_type_in_ui, create_and_start,
  adapter_job,
}
use atom_shell.Protocol.Roundtrip.{posted, step-intercepts, run_two}

-- The job that a handler makes at once. An adapter job asks the UI thread and then makes the real
-- one. `none` is no job, or a crash on a null callback or buffer.
serve_by : (ℕ → Option ℕ) → (ℕ → JsResult) → String → Registry → Option RealJob → Option RealJob
unfolding get_job_type_in_ui create_and_start
serve_by makes js scheme r (some (adapter_job original)) =
    (get_job_type_in_ui js original scheme r).1 >>= λ p. create_and_start makes original p
serve_by makes js scheme r other = other

unfoldable pub serve : (ℕ → Option ℕ) → (ℕ → JsResult) → String → Registry → Option RealJob
unfolding serve_by maybe_create_job get_protocol_handler
serve makes js scheme r = get_protocol_handler scheme r.job_factory >>= λ h.
    serve_by makes js scheme r (maybe_create_job makes h)

-- An interception whose callback declines is transparent: where the content layer's handler makes a
-- job for the scheme, the same job serves the request once the IO thread has installed the
-- interception.
pub serve-intercepts :
    (net : String → Bool) (makes : ℕ → Option ℕ) (js : ℕ → JsResult) (k : String) (n b j : ℕ)
    (r : Registry)
    → r.io ≡ []
    → lookup k r.job_factory ≡ some (builtin b)
    → contains k r.protocol_handlers ≡ false
    → js n ≡ js_other
    → makes b ≡ some j
    → (r' : Registry) × (run net (intercepts k n ∷ io_turn ∷ []) r ≡ some r')
      × (serve makes js k r' ≡ serve makes js k r)
      × (serve makes js k r ≡ some (builtin_job j))
unfolding serve
serve-intercepts net makes js k n b j r idle there free declines made =
    let (r', ran, handlers, io, does) =
      posted net k n r idle (intercept_in_io k) (insert k (some n) r.protocol_handlers) tt in
    let there' : contains k r.job_factory ≡ true =
      ground (arith, contains-lookup k r.job_factory) in
    let before : serve makes js k r ≡ some (builtin_job j) = rw (there, maybe_create_job, made) in
    let over : lookup k r'.job_factory ≡ some (custom_over (builtin b)) =
      rw (does k, same_refl k, there) in
    let asked : lookup k r'.protocol_handlers ≡ some (some n) =
      rw (handlers, lookup-insert k k (some n) r.protocol_handlers, same_refl k) in
    let after : serve makes js k r' ≡ some (builtin_job j) =
      rw (
        over, get_job_type_in_ui, get_protocol_callback, asked, declines, maybe_create_job, made,
      ) in
    (
      r',
      run_two net _ _ r _ r' (step-intercepts net k n r idle there' free) ran,
      rw (after, before),
      before,
    )
