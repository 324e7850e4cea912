-- ===== src/Node/Bindings.antt =====
-- The two threads of NodeBindings (atom/common/node_bindings.cc), from PrepareMessageLoop to the destructor. A thread
-- takes one step at a time; a step that blocks changes nothing. Of what libuv runs in uv_run only a call of RunMessageLoop
-- is modelled.
use atom_shell.Common.{
  ℕ, zero, suc, Bool, true, false, ◌||◌, ◌&&◌, ◌==◌, Option, none, some, List, [], ◌∷◌,
  if◌then◌else◌,
}

-- Where EmbedThreadRunner stands: at uv_sem_wait, behind it, in PollEvents, behind it, at WakeupMainThread, or
-- at its end.
pub data Worker : Type 0 where
  waiting : Worker
  taken : Worker
  polling : Worker
  polled : Worker
  waking : Worker
  finished : Worker

-- The main thread: before RunMessageLoop, outside UvRunOnce after that, in UvRunOnce before its uv_sem_post, with the
-- number of further calls of UvRunOnce around it, and in the destructor, when embed_closed_ is set, the semaphore is
-- posted, the embed thread is woken, and it has joined.
pub data Main : Type 0 where
  prepared : Main
  idle : Main
  uv_running : ℕ → Main
  closing : Main
  posted : Main
  joining : Main
  joined : Main

-- `embed_sem` is the value of the semaphore, `async_sent` whether dummy_uv_handle_ is signalled, and `tasks` the
-- number of UvRunOnce tasks in the message loop, `quits` whether QuitWhenIdle was called.
pub record NodeBindings : Type 0 where
  pub embed_sem : ℕ
  pub embed_closed : Bool
  pub async_sent : Bool
  pub tasks : ℕ
  pub quits : Bool
  pub worker : Worker
  pub main : Main

-- After PrepareMessageLoop.
unfoldable pub prepare_message_loop : NodeBindings
prepare_message_loop = record {
  embed_sem = 0;
  embed_closed = false;
  async_sent = false;
  tasks = 0;
  quits = false;
  worker = waiting;
  main = prepared;
}

abbrev pub sem_wait : ℕ → NodeBindings → Option NodeBindings
sem_wait zero b = none
sem_wait (suc n) b = some (record b { embed_sem = n; worker = taken })

-- A step of EmbedThreadRunner that stands there; `event` is whether the loop has an event or the timeout ends.
abbrev pub embed_step : Worker → Bool → NodeBindings → Option NodeBindings
embed_step waiting event b = sem_wait b.embed_sem b
embed_step taken event b = some (record b { worker = if b.embed_closed then finished else polling })
embed_step polling event b =
    if event || b.async_sent then some (record b { worker = polled }) else none
embed_step polled event b = some (record b { worker = if b.embed_closed then finished else waking })
embed_step waking event b = some (record b { tasks = suc b.tasks; worker = waiting })
embed_step finished event b = none

unfoldable pub embed_thread_runner : Bool → NodeBindings → Option NodeBindings
embed_thread_runner event b = embed_step b.worker event b

pub data MainStep : Type 0 where
  run_message_loop : MainStep
  run_task : MainStep
  end_uv_run : ℕ → Bool → Bool → MainStep
  destroy : MainStep
  watcher_queue_changed : MainStep

abbrev pub take_task : ℕ → NodeBindings → Option NodeBindings
take_task zero b = none
take_task (suc n) b = some (record b { tasks = n; main = uv_running 0 })

abbrev pub is_finished : Worker → Bool
is_finished finished = true
is_finished _ = false

-- Where a call of UvRunOnce returns to, inside of that many others.
abbrev pub behind : ℕ → Main
behind zero = idle
behind (suc depth) = uv_running depth

-- UvRunOnce, behind uv_run, inside of `depth` others: `r` is what uv_run returned, `stop_flag` whether the loop was
-- stopped, and `kept` whether dummy_uv_handle_ is signalled still.
abbrev pub end_uv_run_once : ℕ → ℕ → Bool → Bool → NodeBindings → NodeBindings
end_uv_run_once depth r stop_flag kept b = record b {
  async_sent = b.async_sent && kept;
  quits = if r == 0 || stop_flag then true else b.quits;
  embed_sem = suc b.embed_sem;
  main = behind depth;
}

-- The destructor, which runs outside UvRunOnce, in four steps: the last, uv_thread_join, waits for the embed thread.
abbrev pub destructor_step : Main → NodeBindings → Option NodeBindings
destructor_step prepared b = some (record b { embed_closed = true; main = closing })
destructor_step idle b = some (record b { embed_closed = true; main = closing })
destructor_step closing b = some (record b { embed_sem = suc b.embed_sem; main = posted })
destructor_step posted b = some (record b { async_sent = true; main = joining })
destructor_step joining b = if is_finished b.worker then some (record b { main = joined }) else none
destructor_step _ b = none

-- RunMessageLoop and a posted task both start UvRunOnce. AtomBrowserMainParts calls RunMessageLoop once;
-- AtomRendererClient::DidCreateScriptContext calls it for the main frame and for each context of a guest frame, at any
-- time, also from a callback of libuv. A posted task starts outside of uv_run.
abbrev pub main_step : Main → MainStep → NodeBindings → Option NodeBindings
main_step prepared run_message_loop b = some (record b { main = uv_running 0 })
main_step idle run_message_loop b = some (record b { main = uv_running 0 })
main_step (uv_running depth) run_message_loop b = some (record b { main = uv_running (suc depth) })
main_step idle run_task b = take_task b.tasks b
main_step (uv_running depth) (end_uv_run r stop_flag kept) b =
    some (end_uv_run_once depth r stop_flag kept b)
main_step idle watcher_queue_changed b = some (record b { async_sent = true })
main_step (uv_running depth) watcher_queue_changed b = some (record b { async_sent = true })
main_step m destroy b = destructor_step m b
main_step _ _ b = none

unfoldable pub main_thread : MainStep → NodeBindings → Option NodeBindings
main_thread step b = main_step b.main step b

-- Whose turn it is.
pub data Turn : Type 0 where
  embed_turn : Bool → Turn
  main_turn : MainStep → Turn

abbrev pub or_blocked : NodeBindings → Option NodeBindings → NodeBindings
or_blocked b none = b
or_blocked b (some c) = c

unfoldable pub take_turn : Turn → NodeBindings → NodeBindings
take_turn (embed_turn event) b = or_blocked b (embed_thread_runner event b)
take_turn (main_turn step) b = or_blocked b (main_thread step b)

unfoldable pub run : List Turn → NodeBindings → NodeBindings
run [] b = b
run (t ∷ rest) b = run rest (take_turn t b)
