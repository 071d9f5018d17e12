-- ===== src/Threads/Tests.antt =====
-- The search in the thread list of p2/scheduler.c on concrete threads.
use operating_systems_cs.Common.{true, false, none, some, List, [], ◌∷◌, ◌≡◌, refl}
use operating_systems_cs.Threads.{
  Thread, running, sleeping, terminated, found, ready, thread_at, visit, search, thread_candidate,
  Scheduled, schedule, scheduler_create,
}

-- A terminated thread, a ready one, the running one, and a terminated one.
abbrev some_threads : List Thread
some_threads =
    record { status = terminated; freed = false }
    ∷ record { status = sleeping; freed = false }
    ∷ record { status = running; freed = false }
    ∷ record { status = terminated; freed = false }
    ∷ []

candidate_test : thread_candidate (record { threads = some_threads; cur_thread = some 2 }) ≡ found 1
unfolding thread_candidate search visit thread_at ready
candidate_test = refl

-- The first call of all, when there is no current thread.
first_execute : schedule (record { threads = some_threads; cur_thread = none }) ≡ Scheduled.fault
unfolding schedule thread_candidate
first_execute = refl

-- A thread without a stack is freed and stays at the head of the list.
no_stack :
    thread_candidate
      (scheduler_create (record { threads = some_threads; cur_thread = some 0 }) true false).1
    ≡ found 2
unfolding scheduler_create thread_candidate search visit thread_at ready
no_stack = refl
