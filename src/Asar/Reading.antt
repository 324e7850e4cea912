-- ===== src/Asar/Reading.antt =====
-- What a job reads in all (atom/browser/net/asar/url_request_asar_job.cc).
use mathlib.Core.Path.{subst}
use atom_shell.Common.{ℕ, ◌+◌, ◌≡◌, refl, Option, none, some, List, [], ◌∷◌, arith}
use atom_shell.Asar.Archive.{FileInfo}
use atom_shell.Asar.Job.{Job, start}
use atom_shell.Asar.Steps.{Event, IsAllowed, IsWithin, Steps, idle-IsWithin, step, step-Steps}

-- The bytes of a sequence of events, and the job after them.
unfoldable pub run : List Event → Job → Option (ℕ × Job)
run [] job = some (0, job)
run (e ∷ es) job = elim (step e job) [
  | none ↦ none
  | some r ↦ elim (run es r.1) [ none ↦ none | some q ↦ some (r.0 + q.0, q.1) ]
]

abbrev pub IfAny : (Job → Type 0) → Option (ℕ × Job) → Type 0
IfAny P none = Unit
IfAny P (some r) = P r.1

-- Every event is allowed when it comes.
abbrev pub AreAllowed : List Event → Job → Type 0
AreAllowed [] job = Unit
AreAllowed (e ∷ es) job = IsAllowed e job × IfAny (AreAllowed es) (step e job)

join-Steps :
    (job j : Job) (n : ℕ) (o : Option (ℕ × Job))
    → n + j.remaining_bytes ≡ job.remaining_bytes
    → Steps j o
    → Steps job (elim o [ none ↦ none | some q ↦ some (n + q.0, q.1) ])
join-Steps job j n none h k = absurd k
join-Steps job j n (some (m, i)) h k = (k.0, omega (arith, h, k.1))

after-Steps :
    (job : Job) (o : Option (ℕ × Job)) (f : Job → Option (ℕ × Job))
    → Steps job o
    → ((r : ℕ × Job) → o ≡ some r → IsWithin r.1 → Steps r.1 (f r.1))
    → Steps job (elim o [
      | none ↦ none
      | some r ↦ elim (f r.1) [ none ↦ none | some q ↦ some (r.0 + q.0, q.1) ]
    ])
after-Steps job none f h k = absurd h
after-Steps job (some (n, j)) f h k = join-Steps job j n (f j) h.1 (k (n, j) refl h.0)

run-Steps :
    (es : List Event) (job : Job) → IsWithin job → AreAllowed es job → Steps job (run es job)
unfolding run
run-Steps [] job h k = (h, omega arith)
run-Steps (e ∷ es) job h k =
    after-Steps job (step e job) (run es) (step-Steps e job h k.0)
      (λ r x w. run-Steps es r.1 w (subst (IfAny (AreAllowed es)) x k.1))

Steps-sum :
    (job : Job) (o : Option (ℕ × Job))
    → Steps job o
    → (r : ℕ × Job) × ((o ≡ some r) × (r.0 + r.1.remaining_bytes ≡ job.remaining_bytes))
Steps-sum job none h = absurd h
Steps-sum job (some r) h = (r, (refl, h.1))

-- In every sequence of reads and finished reads that the request and the stream may do, no check of
-- remaining_bytes_ fails, and the bytes that were handed over and those that remain are together the
-- size of the file.
pub run-total :
    (info : FileInfo) (es : List Event)
    → AreAllowed es (start info)
    → (r : ℕ × Job) × ((run es (start info) ≡ some r) × (r.0 + r.1.remaining_bytes ≡ info.size))
unfolding start
run-total info es h =
    Steps-sum (start info) (run es (start info))
      (run-Steps es (start info) (idle-IsWithin (start info) refl) h)
