-- ===== src/Asar/Steps.antt =====
-- One step of a job and its stream (atom/browser/net/asar/url_request_asar_job.cc).
use atom_shell.Common.{
  ℕ, ◌+◌, ◌-◌, ◌≤◌, ◌≡◌, refl, sym, ◌∙◌, Bool, true, false, Option, none, some, ltb, ◌==◌,
  if◌then◌else◌, arith,
}
use atom_shell.Asar.Job.{
  ReadResult, bytes, net_error, Job, read_size, take_bytes, read_answer, read_raw_data,
  read_complete_job, read_done_job, did_read,
}

-- The request reads, with the stream's answer, or the stream finishes a read.
pub data Event : Type 0 where
  reads : ℕ → Option ReadResult → Event
  finishes : ReadResult → Event

abbrev pub AtMost : Option ReadResult → ℕ → Type 0
AtMost none n = Unit
AtMost (some (bytes k)) n = k ≤ n
AtMost (some (net_error e)) n = Unit

abbrev pub AtMostReading : ReadResult → Option ℕ → Type 0
AtMostReading r none = ⊥
AtMostReading r (some asked) = AtMost (some r) asked

-- A request reads only while no read is pending, the stream finishes only a pending read, and it never
-- gives more bytes than it was asked for.
abbrev pub IsAllowed : Event → Job → Type 0
IsAllowed (reads dest_size answer) job =
    (job.reading ≡ none) × AtMost answer (read_size dest_size job)
IsAllowed (finishes r) job = AtMostReading r job.reading

abbrev pub count : Option ℕ → ℕ
count none = 0
count (some n) = n

abbrev pub bytes_of : ReadResult → ℕ
bytes_of (bytes n) = n
bytes_of (net_error e) = 0

-- The bytes that are handed over, and the job; `none` is a violated DCHECK.
abbrev pub step : Event → Job → Option (ℕ × Job)
step (reads dest_size answer) job = elim (read_raw_data dest_size answer job) [
  | none ↦ none
  | some r ↦ some (count r.0, r.1)
]
step (finishes r) job = elim (did_read r job) [ none ↦ none | some j ↦ some (bytes_of r, j) ]

-- What the stream still reads is within what remains.
abbrev pub IsWithin : Job → Type 0
IsWithin job = (asked : ℕ) → job.reading ≡ some asked → asked ≤ job.remaining_bytes

abbrev pub Steps : Job → Option (ℕ × Job) → Type 0
Steps job none = ⊥
Steps job (some (n, j)) = IsWithin j × (n + j.remaining_bytes ≡ job.remaining_bytes)

read_size-bound : (dest_size : ℕ) (job : Job) → read_size dest_size job ≤ job.remaining_bytes
read_size-bound dest_size job = ground arith

ltb-le : (m n : ℕ) → n ≤ m → ltb m n ≡ false
ltb-le m n h = ground (arith, h)

sub-add : (m n : ℕ) → n ≤ m → n + (m - n) ≡ m
sub-add m n h = omega arith

pub idle-IsWithin : (job : Job) → job.reading ≡ none → IsWithin job
idle-IsWithin job h asked e = ground (arith, sym h ∙ e)

finished-bound :
    (n : ℕ) (o : Option ℕ) (remaining : ℕ)
    → ((asked : ℕ) → o ≡ some asked → asked ≤ remaining)
    → AtMostReading (bytes n) o
    → n ≤ remaining
finished-bound n none remaining h k = absurd k
finished-bound n (some asked) remaining h k = omega (arith, h asked refl, k)

abbrev ReadSteps : Job → Option (Option ℕ × Job) → Type 0
ReadSteps job o = Steps job (elim o [ none ↦ none | some r ↦ some (count r.0, r.1) ])

read-if :
    (job : Job) (c : Bool) (a b : Option (Option ℕ × Job))
    → ReadSteps job a
    → ReadSteps job b
    → ReadSteps job (if c then a else b)
read-if job true a b h k = h
read-if job false a b h k = k

taken :
    (job j : Job) (n : ℕ) (c : Bool)
    → c ≡ false
    → Steps job (some (n, j))
    → ReadSteps job (elim (if c then none else some j) [ none ↦ none | some i ↦ some (some n, i) ])
taken job j n true h k = ground (arith, h)
taken job j n false h k = k

answer-Steps :
    (asked : ℕ) (answer : Option ReadResult) (job : Job)
    → asked ≤ job.remaining_bytes
    → job.reading ≡ none
    → AtMost answer asked
    → ReadSteps job (read_answer asked answer job)
answer-Steps asked none job h i k = (λ n e. ground (arith, h, e), omega arith)
answer-Steps asked (some (bytes n)) job h i k =
    let fits : n ≤ job.remaining_bytes = omega (arith, h, k) in
    taken job (record job { remaining_bytes = job.remaining_bytes - n }) n
      (ltb job.remaining_bytes n) (ltb-le job.remaining_bytes n fits)
      (
        idle-IsWithin (record job { remaining_bytes = job.remaining_bytes - n }) i,
        sub-add job.remaining_bytes n fits,
      )
answer-Steps asked (some (net_error e)) job h i k = (idle-IsWithin job i, omega arith)

abbrev FinishSteps : Job → ℕ → Option Job → Type 0
FinishSteps job n o = Steps job (elim o [ none ↦ none | some j ↦ some (n, j) ])

finish-if :
    (job : Job) (n : ℕ) (c : Bool) (a b : Option Job)
    → (c ≡ true → FinishSteps job n a)
    → FinishSteps job n b
    → FinishSteps job n (if c then a else b)
finish-if job n true a b h k = h refl
finish-if job n false a b h k = k

complete-Steps :
    (n : ℕ) (job : Job)
    → n ≤ job.remaining_bytes
    → FinishSteps job n
        (elim (take_bytes n job) [ none ↦ none | some j ↦ some (read_complete_job n j) ])
complete-Steps n job fits = simp (ltb-le job.remaining_bytes n fits) (
  idle-IsWithin (read_complete_job n (record job { remaining_bytes = job.remaining_bytes - n }))
      refl,
  sub-add job.remaining_bytes n fits,
)

pub step-Steps : (e : Event) (job : Job) → IsWithin job → IsAllowed e job → Steps job (step e job)
unfolding read_raw_data did_read
step-Steps (reads dest_size answer) job h k =
    read-if job (read_size dest_size job == 0) (some (some 0, job))
      (read_answer (read_size dest_size job) answer job) (h, omega arith)
      (answer-Steps (read_size dest_size job) answer job (read_size-bound dest_size job) k.0 k.1)
step-Steps (finishes (bytes n)) job h k =
    finish-if job n (n == 0) (some (read_done_job job))
      (elim (take_bytes n job) [ none ↦ none | some j ↦ some (read_complete_job n j) ])
      (λ z. (idle-IsWithin (read_done_job job) refl, ground (arith, z)))
      (complete-Steps n job (finished-bound n job.reading job.remaining_bytes h k))
step-Steps (finishes (net_error e)) job h k =
    (idle-IsWithin (record job { reading = none }) refl, omega arith)
