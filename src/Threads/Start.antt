-- ===== src/Threads/Start.antt =====
-- The start of the threads of p2/scheduler.c: what scheduler_execute finds after any calls of scheduler_create.
use operating_systems_cs.Common.{Bool, none, List, [], ◌∷◌}
use operating_systems_cs.Threads.{Scheduler, scheduler_create}

-- The state of the program at its start.
abbrev pub no_threads : Scheduler
no_threads = record { threads = []; cur_thread = none }

-- Calls of scheduler_create, each with what its two allocations give.
unfoldable pub create_all : List (Bool × Bool) → Scheduler → Scheduler
create_all [] state = state
create_all ((thread, stack) ∷ calls) state =
    create_all calls (scheduler_create state thread stack).1
