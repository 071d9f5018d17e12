-- ===== src/Threads.antt =====
-- The thread list of p2/scheduler.c: `thread_candidate`, `schedule`, the yield and the creation of a thread. A
-- pointer into the list is its position from the head, and the null pointer the position behind the
-- last one. The jumps between the stacks are not modelled.
pub mod Start
pub mod Tests
use operating_systems_cs.Common.{
  ℕ, zero, suc, ◌+◌, Bool, true, false, if◌then◌else◌, ◌==◌, ◌||◌, Option, none, some, List, [],
  ◌∷◌, length,
}

-- The names behind `STATUS_`.
pub data Status : Type 0 where
  fresh running sleeping terminated : Status

-- `struct thread`, and whether its memory has been freed.
pub record Thread : Type 0 where
  pub status : Status
  pub freed : Bool

-- `state`: the threads from the head along their links, and the current one, null at first.
pub record Scheduler : Type 0 where
  pub threads : List Thread
  pub cur_thread : Option ℕ

-- A thread, none, or an access to null or to freed memory; `spent` is the end of the fuel.
pub data Candidate : Type 0 where
  found : ℕ → Candidate
  nothing : Candidate
  fault : Candidate
  spent : Candidate

-- The status that the search looks for.
unfoldable pub ready : Status → Bool
ready fresh = true
ready running = false
ready sleeping = true
ready terminated = false

pub thread_at : List Thread → ℕ → Option Thread
thread_at [] i = none
thread_at (t ∷ threads) zero = some t
thread_at (t ∷ threads) (suc i) = thread_at threads i

-- A round of the loop at a thread, with what the next round gives; `stop` is the link of the running thread.
pub visit : List Thread → ℕ → ℕ → Candidate → Candidate
visit threads stop i rest = elim (thread_at threads i) [
  | none ↦ fault
  | some t ↦ elim t.freed [
    | true ↦ fault
    | false ↦ if ready t.status then found i else if i + 1 == stop then nothing else rest
  ]
]

-- The loop, which goes on from the head behind the last thread.
pub search : ℕ → List Thread → ℕ → ℕ → Candidate
search zero threads stop start = spent
search (suc fuel) threads stop start =
    let i = if start == length threads then 0 else start in
    visit threads stop i (search fuel threads stop (i + 1))

pub thread_candidate : Scheduler → Candidate
thread_candidate state = elim state.cur_thread [
  | none ↦ fault
  | some i ↦ search (length state.threads) state.threads (i + 1) (i + 1)
]

pub set_status : List Thread → ℕ → Status → List Thread
set_status [] i s = []
set_status (t ∷ threads) zero s = record t { status = s } ∷ threads
set_status (t ∷ threads) (suc i) s = t ∷ set_status threads i s

-- How `schedule` ends: with a jump to the new current thread, with the message, or with a fault.
pub data Scheduled : Type 0 where
  jumps : ℕ → Scheduler → Scheduled
  message : Scheduled
  fault : Scheduled

pub schedule : Scheduler → Scheduled
schedule state = elim (thread_candidate state) [
  | found i ↦ jumps i (record { threads = set_status state.threads i running; cur_thread = some i })
  | nothing ↦ message
  | Candidate.fault ↦ Scheduled.fault
  | spent ↦ Scheduled.fault
]

-- `scheduler_yield` down to its jump, which leads to `schedule`.
pub scheduler_yield : Scheduler → Scheduled
scheduler_yield state = elim state.cur_thread [
  | none ↦ Scheduled.fault
  | some i ↦ schedule (record state { threads = set_status state.threads i sleeping })
]

-- `scheduler_create` with what its two allocations give: the returned status, true for 0, and the list,
-- whose head the new thread is from before its stack is there.
pub scheduler_create : Scheduler → Bool → Bool → Bool × Scheduler
scheduler_create state thread stack =
    let cur : Option ℕ = elim state.cur_thread [ none ↦ none | some i ↦ some (i + 1) ] in
    if thread
    then (
      stack,
      record {
        threads = record { status = fresh; freed = if stack then false else true } ∷ state.threads;
        cur_thread = cur;
      },
    )
    else (false, state)
