-- ===== src/Node/Turns.antt =====
-- What the tokens of NodeBindings (atom/common/node_bindings.cc) give: libuv's loop is run and polled in turns if
-- RunMessageLoop is called once, its events reach the main thread, and the destructor ends.
use atom_shell.Common.{ℕ, zero, suc, ◌≤◌, ◌≡◌, refl, sym, Bool, true, false, List, [], ◌∷◌, arith}
use mathlib.Core.Path.{subst}
use atom_shell.Node.Bindings.{
  Worker, waiting, taken, polling, polled, waking, finished, Main, idle, uv_running, joining,
  joined, NodeBindings, prepare_message_loop, embed_thread_runner, run_task, destroy, main_thread,
  Turn, embed_turn, main_turn, take_turn, run,
}
use atom_shell.Node.Tokens.{Balanced}
use atom_shell.Node.Balance.{count_loops, HasTokens, run-HasTokens}

-- The state that a schedule leads to.
abbrev pub after : List Turn → NodeBindings
after turns = run turns prepare_message_loop

abbrev BalancedAt : List Turn → NodeBindings → Main → Type 0
BalancedAt turns b m =
    (k : ℕ) × (k ≤ count_loops turns)
    × Balanced k b.embed_sem b.embed_closed b.async_sent b.tasks b.worker m

balanced_at :
    (turns : List Turn) (m : Main) → (after turns).main ≡ m → BalancedAt turns (after turns) m
balanced_at turns m e =
    let h : HasTokens 0 turns (after turns) = run-HasTokens turns in
    subst (BalancedAt turns (after turns)) e (h.0, omega (arith, h.1), h.2)

alone :
    (k n t depth : ℕ) (closed async : Bool) (w : Worker)
    → k ≤ 1
    → Balanced k n closed async t w (uv_running depth)
    → (w ≡ waiting) × (t ≡ 0) × (depth ≡ 0)
alone k n t depth closed async waiting le h =
    (refl, omega (arith, le, h.tokens refl), omega (arith, le, h.tokens refl))
alone k n t depth closed async taken le h = ground (arith, le, h.tokens refl)
alone k n t depth closed async polling le h = ground (arith, le, h.tokens refl)
alone k n t depth closed async polled le h = ground (arith, le, h.tokens refl)
alone k n t depth closed async waking le h = ground (arith, le, h.tokens refl)
alone k n t depth closed async finished le h = ground (arith, h.ended refl)

-- In every interleaving of the two threads in which RunMessageLoop is called at most once, while the main thread runs
-- libuv the embed thread waits for the semaphore, so that it does not poll, no other run of libuv is posted, and this
-- run is not inside of another.
pub run-alone :
    (turns : List Turn) (depth : ℕ)
    → count_loops turns ≤ 1
    → (after turns).main ≡ uv_running depth
    → ((after turns).worker ≡ waiting) × ((after turns).tasks ≡ 0) × (depth ≡ 0)
run-alone turns depth once e =
    let h : BalancedAt turns (after turns) (uv_running depth) =
      balanced_at turns (uv_running depth) e in
    alone h.0 _ _ depth _ _ _ (omega (arith, once, h.1)) h.2

-- Five turns of the embed thread while an event is there, and the main thread takes a task.
abbrev pub event_turns : List Turn
event_turns =
    embed_turn true
    ∷ embed_turn true
    ∷ embed_turn true
    ∷ embed_turn true
    ∷ embed_turn true
    ∷ main_turn run_task
    ∷ []

event-wakes :
    (k n t : ℕ) (closed async quits : Bool) (w : Worker)
    → Balanced k n closed async t w idle
    → (run event_turns (record {
      embed_sem = n;
      embed_closed = closed;
      async_sent = async;
      tasks = t;
      quits = quits;
      worker = w;
      main = idle;
    })).main
      ≡ uv_running 0
unfolding run take_turn embed_thread_runner main_thread
event-wakes k zero zero closed async quits waiting h = ground (arith, h.tokens refl, h.started refl)
event-wakes k zero (suc t) closed async quits waiting h = refl
event-wakes k (suc n) t true async quits waiting h = ground (arith, h.shut)
event-wakes k (suc n) t false async quits waiting h = refl
event-wakes k zero t true async quits taken h = ground (arith, h.shut)
event-wakes k zero t false async quits taken h = refl
event-wakes k (suc n) t true async quits taken h = ground (arith, h.shut)
event-wakes k (suc n) t false async quits taken h = refl
event-wakes k zero t true async quits polling h = ground (arith, h.shut)
event-wakes k zero t false async quits polling h = refl
event-wakes k (suc n) t true async quits polling h = ground (arith, h.shut)
event-wakes k (suc n) t false async quits polling h = refl
event-wakes k zero t true async quits polled h = ground (arith, h.shut)
event-wakes k zero t false async quits polled h = refl
event-wakes k (suc n) t true async quits polled h = ground (arith, h.shut)
event-wakes k (suc n) t false async quits polled h = refl
event-wakes k zero t true async quits waking h = ground (arith, h.shut)
event-wakes k zero t false async quits waking h = refl
event-wakes k (suc n) t true async quits waking h = ground (arith, h.shut)
event-wakes k (suc n) t false async quits waking h = refl
event-wakes k n t closed async quits finished h = ground (arith, h.ended refl)

-- In every interleaving, with any number of calls of RunMessageLoop, when the main thread is outside of UvRunOnce, at
-- least one call was made and the destructor has not begun, five turns of the embed thread while libuv has an event
-- leave a task with which the main thread, if its loop goes on and takes one, runs libuv.
pub run-wakes :
    (turns : List Turn)
    → (after turns).main ≡ idle
    → (run event_turns (after turns)).main ≡ uv_running 0
run-wakes turns e =
    let h : BalancedAt turns (after turns) idle = balanced_at turns idle e in
    subst (λ m. (run event_turns (record (after turns) { main = m })).main ≡ uv_running 0) (sym e)
      (event-wakes h.0 _ _ _ _ _ _ h.2)

-- Three turns of the embed thread without an event, and the main thread joins.
abbrev pub last_turns : List Turn
last_turns = embed_turn false ∷ embed_turn false ∷ embed_turn false ∷ main_turn destroy ∷ []

worker-ends :
    (k n t : ℕ) (closed async quits : Bool) (w : Worker)
    → Balanced k n closed async t w joining
    → (run last_turns (record {
      embed_sem = n;
      embed_closed = closed;
      async_sent = async;
      tasks = t;
      quits = quits;
      worker = w;
      main = joining;
    })).main
      ≡ joined
unfolding run take_turn embed_thread_runner main_thread
worker-ends k n t false async quits w h = ground (arith, h.shut)
worker-ends k n t true false quits w h = ground (arith, h.woken refl)
worker-ends k zero t true true quits waiting h = ground (arith, h.spare refl refl)
worker-ends k (suc n) t true true quits waiting h = refl
worker-ends k n t true true quits taken h = refl
worker-ends k n t true true quits polling h = refl
worker-ends k n t true true quits polled h = refl
worker-ends k zero t true true quits waking h = ground (arith, h.spare refl refl)
worker-ends k (suc n) t true true quits waking h = refl
worker-ends k n t true true quits finished h = refl

-- In every interleaving, with any number of calls of RunMessageLoop, also none, when the destructor waits in
-- uv_thread_join, three turns of the embed thread are enough for it to end, with no event of libuv and whatever it was
-- doing, and the join returns.
pub run-joins :
    (turns : List Turn)
    → (after turns).main ≡ joining
    → (run last_turns (after turns)).main ≡ joined
run-joins turns e =
    let h : BalancedAt turns (after turns) joining = balanced_at turns joining e in
    subst (λ m. (run last_turns (record (after turns) { main = m })).main ≡ joined) (sym e)
      (worker-ends h.0 _ _ _ _ _ _ h.2)
