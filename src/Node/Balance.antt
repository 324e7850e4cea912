-- ===== src/Node/Balance.antt =====
-- That the steps of the main thread of NodeBindings (atom/common/node_bindings.cc) keep the tokens, and so do all
-- schedules of the two threads.
use atom_shell.Common.{ℕ, zero, suc, ◌+◌, ◌≤◌, refl, Bool, List, [], ◌∷◌, arith}
use atom_shell.Node.Bindings.{
  Worker, waiting, taken, polling, polled, waking, finished, Main, prepared, idle, uv_running,
  closing, posted, joining, joined, NodeBindings, prepare_message_loop, embed_thread_runner,
  MainStep, run_message_loop, run_task, end_uv_run, destroy, watcher_queue_changed, main_step,
  main_thread, or_blocked, Turn, embed_turn, main_turn, take_turn, run,
}
use atom_shell.Node.Tokens.{Balanced, IsBalanced, embed-IsBalanced}

-- The calls of RunMessageLoop after a step of the main thread.
abbrev pub started : Main → MainStep → ℕ → ℕ
started prepared run_message_loop k = suc k
started idle run_message_loop k = suc k
started (uv_running depth) run_message_loop k = suc k
started _ _ k = k

-- How often a schedule has the main thread call RunMessageLoop.
abbrev pub count_loop : Turn → ℕ → ℕ
count_loop (main_turn run_message_loop) k = suc k
count_loop _ k = k

abbrev pub count_loops : List Turn → ℕ
count_loops [] = 0
count_loops (turn ∷ rest) = count_loop turn (count_loops rest)

started-le :
    (m : Main) (step : MainStep) (k j : ℕ)
    → started m step k + j ≤ k + count_loop (main_turn step) j
started-le prepared run_message_loop k j = omega arith
started-le idle run_message_loop k j = omega arith
started-le (uv_running depth) run_message_loop k j = omega arith
started-le closing run_message_loop k j = omega arith
started-le posted run_message_loop k j = omega arith
started-le joining run_message_loop k j = omega arith
started-le joined run_message_loop k j = omega arith
started-le prepared run_task k j = omega arith
started-le prepared (end_uv_run r stop_flag kept) k j = omega arith
started-le prepared destroy k j = omega arith
started-le prepared watcher_queue_changed k j = omega arith
started-le idle run_task k j = omega arith
started-le idle (end_uv_run r stop_flag kept) k j = omega arith
started-le idle destroy k j = omega arith
started-le idle watcher_queue_changed k j = omega arith
started-le (uv_running depth) run_task k j = omega arith
started-le (uv_running depth) (end_uv_run r stop_flag kept) k j = omega arith
started-le (uv_running depth) destroy k j = omega arith
started-le (uv_running depth) watcher_queue_changed k j = omega arith
started-le closing run_task k j = omega arith
started-le closing (end_uv_run r stop_flag kept) k j = omega arith
started-le closing destroy k j = omega arith
started-le closing watcher_queue_changed k j = omega arith
started-le posted run_task k j = omega arith
started-le posted (end_uv_run r stop_flag kept) k j = omega arith
started-le posted destroy k j = omega arith
started-le posted watcher_queue_changed k j = omega arith
started-le joining run_task k j = omega arith
started-le joining (end_uv_run r stop_flag kept) k j = omega arith
started-le joining destroy k j = omega arith
started-le joining watcher_queue_changed k j = omega arith
started-le joined run_task k j = omega arith
started-le joined (end_uv_run r stop_flag kept) k j = omega arith
started-le joined destroy k j = omega arith
started-le joined watcher_queue_changed k j = omega arith

main-IsBalanced :
    (k n : ℕ) (closed async quits : Bool) (t : ℕ) (w : Worker) (m : Main) (step : MainStep)
    → Balanced k n closed async t w m
    → IsBalanced (started m step k) (
        or_blocked
          (record {
            embed_sem = n;
            embed_closed = closed;
            async_sent = async;
            tasks = t;
            quits = quits;
            worker = w;
            main = m;
          })
          (main_step m step (record {
            embed_sem = n;
            embed_closed = closed;
            async_sent = async;
            tasks = t;
            quits = quits;
            worker = w;
            main = m;
          })))
main-IsBalanced k n closed async quits t w prepared run_message_loop h = record {
  tokens = λ live. omega (arith, h.tokens live);
  started = λ _. omega arith;
  shut = h.shut;
  ended = h.ended;
  woken = λ e. ground (arith, e);
  spare = λ e _. ground (arith, e);
}
main-IsBalanced k n closed async quits t w prepared run_task h = h
main-IsBalanced k n closed async quits t w prepared (end_uv_run r stop_flag kept) h = h
main-IsBalanced k n closed async quits t w prepared destroy h = record {
  tokens = h.tokens;
  started = λ e. ground (arith, e);
  shut = refl;
  ended = λ _. refl;
  woken = h.woken;
  spare = λ e _. ground (arith, e);
}
main-IsBalanced k n closed async quits t w prepared watcher_queue_changed h = h
main-IsBalanced k n closed async quits t w idle run_message_loop h = record {
  tokens = λ live. omega (arith, h.tokens live);
  started = λ _. omega arith;
  shut = h.shut;
  ended = h.ended;
  woken = λ e. ground (arith, e);
  spare = λ e _. ground (arith, e);
}
main-IsBalanced k n closed async quits zero w idle run_task h = h
main-IsBalanced k n closed async quits (suc t) w idle run_task h = record {
  tokens = λ live. omega (arith, h.tokens live);
  started = h.started;
  shut = h.shut;
  ended = h.ended;
  woken = h.woken;
  spare = λ e _. ground (arith, e);
}
main-IsBalanced k n closed async quits t w idle (end_uv_run r stop_flag kept) h = h
main-IsBalanced k n closed async quits t w idle destroy h = record {
  tokens = h.tokens;
  started = λ e. ground (arith, e);
  shut = refl;
  ended = λ _. refl;
  woken = h.woken;
  spare = λ e _. ground (arith, e);
}
main-IsBalanced k n closed async quits t w idle watcher_queue_changed h = record {
  tokens = h.tokens;
  started = h.started;
  shut = h.shut;
  ended = h.ended;
  woken = λ _. refl;
  spare = h.spare;
}
main-IsBalanced k n closed async quits t w (uv_running depth) run_message_loop h = record {
  tokens = λ live. omega (arith, h.tokens live);
  started = λ _. omega arith;
  shut = h.shut;
  ended = h.ended;
  woken = λ e. ground (arith, e);
  spare = λ e _. ground (arith, e);
}
main-IsBalanced k n closed async quits t w (uv_running depth) run_task h = h
main-IsBalanced k n closed async quits t w (uv_running zero) (end_uv_run r stop_flag kept) h =
    record {
      tokens = λ live. omega (arith, h.tokens live);
      started = λ _. h.started refl;
      shut = h.shut;
      ended = h.ended;
      woken = λ e. ground (arith, e);
      spare = λ e _. ground (arith, e);
    }
main-IsBalanced k n closed async quits t w (uv_running (suc depth)) (end_uv_run r stop_flag kept)
      h =
    record {
      tokens = λ live. omega (arith, h.tokens live);
      started = λ _. h.started refl;
      shut = h.shut;
      ended = h.ended;
      woken = λ e. ground (arith, e);
      spare = λ e _. ground (arith, e);
    }
main-IsBalanced k n closed async quits t w (uv_running depth) destroy h = h
main-IsBalanced k n closed async quits t w (uv_running depth) watcher_queue_changed h = record {
  tokens = h.tokens;
  started = h.started;
  shut = h.shut;
  ended = h.ended;
  woken = λ _. refl;
  spare = h.spare;
}
main-IsBalanced k n closed async quits t w closing run_message_loop h = h
main-IsBalanced k n closed async quits t w closing run_task h = h
main-IsBalanced k n closed async quits t w closing (end_uv_run r stop_flag kept) h = h
main-IsBalanced k n closed async quits t w closing destroy h = record {
  tokens = λ live. omega (arith, h.tokens live);
  started = h.started;
  shut = h.shut;
  ended = h.ended;
  woken = h.woken;
  spare = λ _ _. omega arith;
}
main-IsBalanced k n closed async quits t w closing watcher_queue_changed h = h
main-IsBalanced k n closed async quits t w posted run_message_loop h = h
main-IsBalanced k n closed async quits t w posted run_task h = h
main-IsBalanced k n closed async quits t w posted (end_uv_run r stop_flag kept) h = h
main-IsBalanced k n closed async quits t w posted destroy h = record {
  tokens = h.tokens;
  started = h.started;
  shut = h.shut;
  ended = h.ended;
  woken = λ _. refl;
  spare = h.spare;
}
main-IsBalanced k n closed async quits t w posted watcher_queue_changed h = h
main-IsBalanced k n closed async quits t w joining run_message_loop h = h
main-IsBalanced k n closed async quits t w joining run_task h = h
main-IsBalanced k n closed async quits t w joining (end_uv_run r stop_flag kept) h = h
main-IsBalanced k n closed async quits t waiting joining destroy h = h
main-IsBalanced k n closed async quits t taken joining destroy h = h
main-IsBalanced k n closed async quits t polling joining destroy h = h
main-IsBalanced k n closed async quits t polled joining destroy h = h
main-IsBalanced k n closed async quits t waking joining destroy h = h
main-IsBalanced k n closed async quits t finished joining destroy h = record {
  tokens = h.tokens;
  started = h.started;
  shut = h.shut;
  ended = h.ended;
  woken = h.woken;
  spare = h.spare;
}
main-IsBalanced k n closed async quits t w joining watcher_queue_changed h = h
main-IsBalanced k n closed async quits t w joined run_message_loop h = h
main-IsBalanced k n closed async quits t w joined run_task h = h
main-IsBalanced k n closed async quits t w joined (end_uv_run r stop_flag kept) h = h
main-IsBalanced k n closed async quits t w joined destroy h = h
main-IsBalanced k n closed async quits t w joined watcher_queue_changed h = h

-- The calls of RunMessageLoop in a schedule from some, of which as many as count_loops had an effect at most.
abbrev pub HasTokens : ℕ → List Turn → NodeBindings → Type 0
HasTokens k turns b = (j : ℕ) × (j ≤ k + count_loops turns) × IsBalanced j b

run_from-HasTokens :
    (k : ℕ) (turns : List Turn) (b : NodeBindings)
    → IsBalanced k b
    → HasTokens k turns (run turns b)
unfolding run take_turn embed_thread_runner main_thread
run_from-HasTokens k [] b h = (k, omega arith, h)
run_from-HasTokens k (embed_turn event ∷ rest) b h =
    run_from-HasTokens k rest (take_turn (embed_turn event) b) (
      embed-IsBalanced k b.embed_sem b.embed_closed b.async_sent b.quits b.tasks b.worker b.main
        event h)
run_from-HasTokens k (main_turn step ∷ rest) b h =
    let r : HasTokens (started b.main step k) rest (run rest (take_turn (main_turn step) b)) =
      run_from-HasTokens (started b.main step k) rest (take_turn (main_turn step) b) (
        main-IsBalanced k b.embed_sem b.embed_closed b.async_sent b.quits b.tasks b.worker b.main
          step h) in
    (r.0, omega (arith, r.1, started-le b.main step k (count_loops rest)), r.2)

pub run-HasTokens : (turns : List Turn) → HasTokens 0 turns (run turns prepare_message_loop)
unfolding prepare_message_loop
run-HasTokens turns = run_from-HasTokens 0 turns _ (record {
  tokens = λ _. refl;
  started = λ e. ground (arith, e);
  shut = refl;
  ended = λ e. ground (arith, e);
  woken = λ e. ground (arith, e);
  spare = λ e _. ground (arith, e);
})
