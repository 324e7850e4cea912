-- ===== src/Node/Tests.antt =====
-- Runs of the two threads.
use atom_shell.Common.{zero, ◌≡◌, refl, true, false, List, [], ◌∷◌, arith}
use atom_shell.Node.Bindings.{
  waiting, polling, idle, uv_running, joining, joined, prepare_message_loop, embed_thread_runner,
  run_message_loop, run_task, end_uv_run, destroy, main_thread, Turn, embed_turn, main_turn,
  take_turn, run,
}
use atom_shell.Node.Turns.{after, event_turns, last_turns, run-alone, run-wakes, run-joins}

-- libuv runs once, and its next event makes it run again.
abbrev second_run : List Turn
second_run =
    main_turn run_message_loop
    ∷ main_turn (end_uv_run 1 false false)
    ∷ embed_turn false
    ∷ embed_turn false
    ∷ embed_turn true
    ∷ embed_turn false
    ∷ embed_turn false
    ∷ main_turn run_task
    ∷ []

second_run-main : (after second_run).main ≡ uv_running zero
unfolding run prepare_message_loop take_turn embed_thread_runner main_thread
second_run-main = refl

run-alone_example :
    ((after second_run).worker ≡ waiting) × ((after second_run).tasks ≡ 0) × (zero ≡ zero)
run-alone_example = run-alone second_run zero (omega arith) second_run-main

-- RunMessageLoop is called again, and then the embed thread polls while libuv runs.
abbrev two_contexts : List Turn
two_contexts =
    main_turn run_message_loop
    ∷ main_turn (end_uv_run 1 false false)
    ∷ main_turn run_message_loop
    ∷ embed_turn false
    ∷ embed_turn false
    ∷ []

two_contexts-worker :
    ((after two_contexts).main ≡ uv_running 0) × ((after two_contexts).worker ≡ polling)
unfolding run prepare_message_loop take_turn embed_thread_runner main_thread
two_contexts-worker = (refl, refl)

abbrev first_run : List Turn
first_run =
    main_turn run_message_loop ∷ main_turn (end_uv_run 1 false false) ∷ embed_turn false ∷ []

first_run-main : (after first_run).main ≡ idle
unfolding run prepare_message_loop take_turn embed_thread_runner main_thread
first_run-main = refl

run-wakes_example : (run event_turns (after first_run)).main ≡ uv_running 0
run-wakes_example = run-wakes first_run first_run-main

-- The destructor begins while the embed thread polls.
abbrev destroyed : List Turn
destroyed =
    main_turn run_message_loop
    ∷ main_turn run_message_loop
    ∷ main_turn (end_uv_run 1 false false)
    ∷ main_turn (end_uv_run 0 false false)
    ∷ embed_turn false
    ∷ embed_turn false
    ∷ main_turn destroy
    ∷ main_turn destroy
    ∷ main_turn destroy
    ∷ []

destroyed-main : (after destroyed).main ≡ joining
unfolding run prepare_message_loop take_turn embed_thread_runner main_thread
destroyed-main = refl

run-joins_example : (run last_turns (after destroyed)).main ≡ joined
run-joins_example = run-joins destroyed destroyed-main
