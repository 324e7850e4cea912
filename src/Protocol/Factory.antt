-- ===== src/Protocol/Factory.antt =====
-- AtomURLRequestJobFactory: the map from schemes to protocol handlers
-- (atom/browser/net/atom_url_request_job_factory.cc). A handler is given by what it is made of, so
-- the deletion of a handler, with the original that it owns, is its removal from the map.
use atom_shell.Common.{ℕ, Bool, true, false, ◌||◌, Option, none, some, List, String, if◌then◌else◌}
use atom_shell.Common.Dictionary.{string_key, lookup, contains, insert, erase}

-- `builtin n` stands for a handler that the content layer installed. `custom` is a
-- CustomProtocolHandler with no handler below it, `custom_over h` one that intercepts `h`.
pub data Handler : Type 0 where
  builtin : ℕ → Handler
  custom : Handler
  custom_over : Handler → Handler

abbrev pub Factory : Type 0
Factory = List (String × Handler)

-- A null handler unregisters. The Boolean is the result.
unfoldable pub set_protocol_handler : String → Option Handler → Factory → Factory × Bool
set_protocol_handler scheme none f =
    if contains scheme f then (erase scheme f, true) else (f, false)
set_protocol_handler scheme (some h) f =
    if contains scheme f then (f, false) else (insert scheme h f, true)

-- The handler that was replaced, or null.
unfoldable pub replace_protocol : String → Handler → Factory → Factory × Option Handler
replace_protocol scheme h f =
    if contains scheme f then (insert scheme h f, lookup scheme f) else (f, none)

unfoldable pub get_protocol_handler : String → Factory → Option Handler
get_protocol_handler scheme f = lookup scheme f

unfoldable pub has_protocol_handler : String → Factory → Bool
has_protocol_handler scheme f = contains scheme f

-- `net_handles` is net::URLRequest::IsHandledProtocol.
unfoldable pub is_handled_protocol : (String → Bool) → String → Factory → Bool
unfolding has_protocol_handler
is_handled_protocol net_handles scheme f = has_protocol_handler scheme f || net_handles scheme

-- A URL is its scheme, or none if it is not valid.
unfoldable pub is_handled_url : (String → Bool) → Option String → Factory → Bool
unfolding is_handled_protocol
is_handled_url net_handles none f = true
is_handled_url net_handles (some scheme) f = is_handled_protocol net_handles scheme f
