-- ===== src/Asar/Job.antt =====
-- URLRequestAsarJob (atom/browser/net/asar/url_request_asar_job.cc): it serves a part of the archive's file
-- through a net::FileStream, whose answers are arguments.
use atom_shell.Common.{ℕ, ◌-◌, not, Option, none, some, List, [], ◌∷◌, ltb, ◌==◌, if◌then◌else◌}
use atom_shell.Asar.Archive.{FileInfo}

-- The result of a read: a count of bytes or an error.
pub data ReadResult : Type 0 where
  bytes : ℕ → ReadResult
  net_error : ℕ → ReadResult

-- What the job tells the request; bytes are those that ReadRawData or NotifyReadComplete hands over.
pub data Notice : Type 0 where
  headers_complete : ℕ → Notice
  done : Notice
  failed : ℕ → Notice
  range_not_satisfiable : Notice
  status_pending : Notice
  status_cleared : Notice
  read_complete : ℕ → Notice
  read_failed : ℕ → Notice

-- remaining_bytes_; what the stream still has to read for the job; the notices, the last one first.
pub record Job : Type 0 where
  pub remaining_bytes : ℕ
  pub reading : Option ℕ
  pub notices : List Notice

abbrev pub notify : Notice → Job → Job
notify n job = record job { notices = n ∷ job.notices }

unfoldable pub start : FileInfo → Job
start info = record { remaining_bytes = info.size; reading = none; notices = [] }

-- DidSeek, for an offset that is a number of int64, with the position that the stream reports; `none` is a failure, also of Seek itself.
unfoldable pub did_seek : FileInfo → Option ℕ → Job → Job
did_seek info none job = notify range_not_satisfiable job
did_seek info (some position) job =
    if not (position == info.offset)
    then notify range_not_satisfiable job
    else notify (headers_complete job.remaining_bytes) job

-- DidOpen with net::OK or an error; the position is that of the Seek that follows.
unfoldable pub did_open : FileInfo → Option ℕ → Option ℕ → Job → Job
unfolding did_seek
did_open info none position job = did_seek info position job
did_open info (some e) position job = notify (failed e) job

-- The bytes that ReadRawData asks the stream for.
abbrev pub read_size : ℕ → Job → ℕ
read_size dest_size job =
    if ltb job.remaining_bytes dest_size then job.remaining_bytes else dest_size

-- `remaining_bytes_ -= n` and its DCHECK, which `none` violates.
abbrev pub take_bytes : ℕ → Job → Option Job
take_bytes n job =
    if ltb job.remaining_bytes n
    then none
    else some (record job { remaining_bytes = job.remaining_bytes - n })

-- The answer of the stream; `none` is ERR_IO_PENDING.
abbrev pub read_answer : ℕ → Option ReadResult → Job → Option (Option ℕ × Job)
read_answer asked none job =
    some (none, notify status_pending (record job { reading = some asked }))
read_answer asked (some (bytes n)) job = elim (take_bytes n job) [
  | none ↦ none
  | some j ↦ some (some n, j)
]
read_answer asked (some (net_error e)) job = some (none, notify (failed e) job)

-- ReadRawData into a buffer of the size; the result is the count of bytes that are read, or `none` for
-- `return false`.
unfoldable pub read_raw_data : ℕ → Option ReadResult → Job → Option (Option ℕ × Job)
read_raw_data dest_size answer job =
    if read_size dest_size job == 0
    then some (some 0, job)
    else read_answer (read_size dest_size job) answer job

abbrev pub read_complete_job : ℕ → Job → Job
read_complete_job n job =
    notify (read_complete n) (notify status_cleared (record job { reading = none }))

abbrev pub read_done_job : Job → Job
read_done_job job = notify (read_complete 0) (notify done (record job { reading = none }))

-- DidRead.
unfoldable pub did_read : ReadResult → Job → Option Job
did_read (bytes n) job =
    if n == 0
    then some (read_done_job job)
    else (elim (take_bytes n job) [ none ↦ none | some j ↦ some (read_complete_job n j) ])
did_read (net_error e) job =
    some (notify (read_failed e) (notify (failed e) (record job { reading = none })))
