-- ===== src/Node/Tokens.antt =====
-- The tokens that pass between the threads of NodeBindings (atom/common/node_bindings.cc), one for each call of
-- RunMessageLoop: a post of the semaphore, an embed thread that has taken it, a task, or a call of UvRunOnce.
use atom_shell.Common.{ℕ, zero, suc, ◌+◌, ◌≤◌, ◌≡◌, refl, sym, Bool, true, false, arith}
use atom_shell.Node.Bindings.{
  Worker, waiting, taken, polling, polled, waking, finished, Main, prepared, idle, uv_running,
  closing, posted, joining, joined, NodeBindings, embed_step, is_finished, or_blocked,
}

-- The tokens that a thread holds.
abbrev pub held : Worker → ℕ
held waiting = 0
held finished = 0
held _ = 1

abbrev pub main_held : Main → ℕ
main_held (uv_running depth) = suc depth
main_held _ = 0

-- The post of the destructor.
abbrev pub last_post : Main → ℕ
last_post posted = 1
last_post joining = 1
last_post joined = 1
last_post _ = 0

abbrev pub is_shut : Main → Bool
is_shut closing = true
is_shut posted = true
is_shut joining = true
is_shut joined = true
is_shut _ = false

abbrev pub is_woken : Main → Bool
is_woken joining = true
is_woken joined = true
is_woken _ = false

-- The embed thread will wait for the semaphore, or again.
abbrev pub will_wait : Worker → Bool
will_wait taken = false
will_wait finished = false
will_wait _ = true

abbrev pub is_started : Main → Bool
is_started idle = true
is_started (uv_running depth) = true
is_started _ = false

-- After `k` calls of RunMessageLoop.
pub record Balanced (k n : ℕ) (closed async : Bool) (t : ℕ) (w : Worker) (m : Main) : Type 0 where
  pub tokens : is_finished w ≡ false → n + t + held w + main_held m ≡ k + last_post m
  pub started : is_started m ≡ true → 1 ≤ k
  pub shut : closed ≡ is_shut m
  pub ended : is_finished w ≡ true → is_shut m ≡ true
  pub woken : is_woken m ≡ true → async ≡ true
  pub spare : last_post m ≡ 1 → will_wait w ≡ true → 1 ≤ n

abbrev pub IsBalanced : ℕ → NodeBindings → Type 0
IsBalanced k b = Balanced k b.embed_sem b.embed_closed b.async_sent b.tasks b.worker b.main

last_post-shut : (m : Main) → last_post m ≡ 1 → is_shut m ≡ true
last_post-shut posted h = refl
last_post-shut joining h = refl
last_post-shut joined h = refl
last_post-shut prepared h = ground (arith, h)
last_post-shut idle h = ground (arith, h)
last_post-shut (uv_running depth) h = ground (arith, h)
last_post-shut closing h = ground (arith, h)

pub embed-IsBalanced :
    (k n : ℕ) (closed async quits : Bool) (t : ℕ) (w : Worker) (m : Main) (event : Bool)
    → Balanced k n closed async t w m
    → IsBalanced k (
        or_blocked
          (record {
            embed_sem = n;
            embed_closed = closed;
            async_sent = async;
            tasks = t;
            quits = quits;
            worker = w;
            main = m;
          })
          (embed_step w event (record {
            embed_sem = n;
            embed_closed = closed;
            async_sent = async;
            tasks = t;
            quits = quits;
            worker = w;
            main = m;
          })))
embed-IsBalanced k zero closed async quits t waiting m event h = h
embed-IsBalanced k (suc n) closed async quits t waiting m event h = record {
  tokens = λ _. omega (arith, h.tokens refl);
  started = h.started;
  shut = h.shut;
  ended = λ e. ground (arith, e);
  woken = h.woken;
  spare = λ _ e. ground (arith, e);
}
embed-IsBalanced k n true async quits t taken m event h = record {
  tokens = λ e. ground (arith, e);
  started = h.started;
  shut = h.shut;
  ended = λ _. sym h.shut;
  woken = h.woken;
  spare = λ _ e. ground (arith, e);
}
embed-IsBalanced k n false async quits t taken m event h = record {
  tokens = λ _. h.tokens refl;
  started = h.started;
  shut = h.shut;
  ended = λ e. ground (arith, e);
  woken = h.woken;
  spare = λ e _. ground (arith, last_post-shut m e, h.shut);
}
embed-IsBalanced k n closed true quits t polling m false h = record {
  tokens = h.tokens;
  started = h.started;
  shut = h.shut;
  ended = h.ended;
  woken = h.woken;
  spare = h.spare;
}
embed-IsBalanced k n closed async quits t polling m true h = record {
  tokens = h.tokens;
  started = h.started;
  shut = h.shut;
  ended = h.ended;
  woken = h.woken;
  spare = h.spare;
}
embed-IsBalanced k n closed false quits t polling m false h = h
embed-IsBalanced k n true async quits t polled m event h = record {
  tokens = λ e. ground (arith, e);
  started = h.started;
  shut = h.shut;
  ended = λ _. sym h.shut;
  woken = h.woken;
  spare = λ _ e. ground (arith, e);
}
embed-IsBalanced k n false async quits t polled m event h = record {
  tokens = h.tokens;
  started = h.started;
  shut = h.shut;
  ended = h.ended;
  woken = h.woken;
  spare = h.spare;
}
embed-IsBalanced k n closed async quits t waking m event h = record {
  tokens = λ _. omega (arith, h.tokens refl);
  started = h.started;
  shut = h.shut;
  ended = λ e. ground (arith, e);
  woken = h.woken;
  spare = λ e _. h.spare e refl;
}
embed-IsBalanced k n closed async quits t finished m event h = h
