-- ===== src/Protocol/Jobs.antt =====
-- The job that answers a request of a custom scheme: CustomProtocolRequestJob::GetJobTypeInUI of
-- atom/browser/api/atom_api_protocol.cc and atom/browser/net/adapter_request_job.cc.
use atom_shell.Common.{ℕ, ◌≡◌, Option, none, some, List, String, arith, str_eq, if◌then◌else◌, ◌≢◌}
use atom_shell.Common.Int.{ℤ, negsuc}
use atom_shell.Protocol.Factory.{Handler, builtin, custom, custom_over}
use atom_shell.Protocol.Registry.{Registry, get_protocol_callback}

-- An object that a JavaScript callback returns: its constructor's name, and what
-- mate::Dictionary::Get converts of its fields (`none` where the field does not convert).
pub record JsObject : Type 0 where
  pub constructor_name : String
  pub text_field : String → Option String
  pub int_field : String → Option ℤ
  pub buffer_field : String → Option (List ℕ)

pub data JsResult : Type 0 where
  js_string : String → JsResult
  js_object : JsObject → JsResult
  js_other : JsResult

-- The method of AdapterRequestJob that is posted to the IO thread.
pub data Posted : Type 0 where
  create_string_job : (mime_type charset text : String) → Posted
  create_buffer_job : (mime_type encoding : String) → List ℕ → Posted
  create_file_job : String → Posted
  create_error_job : ℤ → Posted
  create_job_from_protocol_handler : Posted

-- net::ERR_NOT_IMPLEMENTED.
abbrev pub not_implemented : ℤ
not_implemented = negsuc 10

abbrev get_text : JsObject → String → String
get_text o key = elim (o.text_field key) [ none ↦ "" | some s ↦ s ]

-- A buffer job with no buffer reads through an empty handle: `none`.
abbrev buffer_job : JsObject → Option (List ℕ) → Option Posted
buffer_job o none = none
buffer_job o (some bytes) =
    some (create_buffer_job (get_text o "mimeType") (get_text o "encoding") bytes)

abbrev error_code : Option ℤ → ℤ
error_code none = not_implemented
error_code (some e) = e

-- What follows where no job object was returned.
unfoldable pub fall_back : Option Handler → Posted
fall_back none = create_error_job not_implemented
fall_back (some h) = create_job_from_protocol_handler

unfoldable pub get_job_type : Option Handler → JsResult → Option Posted
unfolding fall_back
get_job_type original (js_string text) = some (create_string_job "text/plain" "UTF-8" text)
get_job_type original (js_object o) =
    if str_eq o.constructor_name "RequestStringJob"
    then some (create_string_job (get_text o "mimeType") (get_text o "charset") (get_text o "data"))
    else if str_eq o.constructor_name "RequestBufferJob"
    then buffer_job o (o.buffer_field "data")
    else if str_eq o.constructor_name "RequestFileJob"
    then some (create_file_job (get_text o "path"))
    else if str_eq o.constructor_name "RequestErrorJob"
    then some (create_error_job (error_code (o.int_field "error")))
    else some (fall_back original)
get_job_type original js_other = some (fall_back original)

-- The callback of the request's scheme is looked up and called: a null one crashes.
unfoldable pub get_job_type_in_ui :
    (ℕ → JsResult) → Option Handler → String → Registry → Registry × Option Posted
unfolding get_protocol_callback get_job_type
get_job_type_in_ui js original scheme r =
    let (r', callback) = get_protocol_callback scheme r in
    (r', elim callback [ none ↦ none | some n ↦ get_job_type original (js n) ])

-- The job made in the end. `builtin_job` is one that a handler of the content layer made,
-- `adapter_job` another CustomProtocolRequestJob over the handler given.
pub data RealJob : Type 0 where
  string_job : (mime_type charset text : String) → RealJob
  buffer_job_of : (mime_type encoding : String) → List ℕ → RealJob
  path_job : String → RealJob
  error_job : ℤ → RealJob
  builtin_job : ℕ → RealJob
  adapter_job : Option Handler → RealJob

-- ProtocolHandler::MaybeCreateJob: `makes` says which job a handler of the content layer makes.
unfoldable pub maybe_create_job : (ℕ → Option ℕ) → Handler → Option RealJob
maybe_create_job makes (builtin n) = elim (makes n) [ none ↦ none | some j ↦ some (builtin_job j) ]
maybe_create_job makes custom = some (adapter_job none)
maybe_create_job makes (custom_over h) = some (adapter_job (some h))

or_error : Option RealJob → RealJob
or_error none = error_job not_implemented
or_error (some j) = j

-- The real job that the posted method makes and starts; with no handler below,
-- `create_job_from_protocol_handler` dereferences null: `none`.
unfoldable pub create_and_start : (ℕ → Option ℕ) → Option Handler → Posted → Option RealJob
unfolding maybe_create_job or_error
create_and_start makes original (create_string_job m c t) = some (string_job m c t)
create_and_start makes original (create_buffer_job m e b) = some (buffer_job_of m e b)
create_and_start makes original (create_file_job p) = some (path_job p)
create_and_start makes original (create_error_job e) = some (error_job e)
create_and_start makes none create_job_from_protocol_handler = none
create_and_start makes (some h) create_job_from_protocol_handler =
    some (or_error (maybe_create_job makes h))

fall_back-starts :
    (makes : ℕ → Option ℕ) (original : Option Handler) (p : Posted)
    → fall_back original ≡ p
    → create_and_start makes original p ≢ none
unfolding fall_back create_and_start
fall_back-starts makes none p e = ground arith
fall_back-starts makes (some h) p e = ground arith

-- Whatever the callback returned, a method that was posted makes a job: the fallback to the
-- handler below is posted only where there is one.
pub get_job_type-starts :
    (makes : ℕ → Option ℕ) (original : Option Handler) (result : JsResult) (p : Posted)
    → get_job_type original result ≡ some p
    → create_and_start makes original p ≢ none
unfolding get_job_type create_and_start
get_job_type-starts makes original (js_string t) p e = ground arith
get_job_type-starts makes original (js_object o) p e =
    ground (arith, fall_back-starts makes original p)
get_job_type-starts makes original js_other p e = ground (arith, fall_back-starts makes original p)
