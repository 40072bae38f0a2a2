-- ===== src/Tests/SyncQueue.antt =====
-- The queue's theorems on a queue of two changes.
use development_kit.Prelude.{
  ◌-◌, ◌*◌, ◌^◌, min, codes, none, some, ◌≡◌, refl, List, [], ◌∷◌, false, arith, leb, if◌then◌else◌,
  ◌↔◌, Among, ok, ◌+◌, ◌<◌, Str, All-at, str_eq, u32_modulus,
}
use development_kit.Prelude.Order.{str_cmp, str_ord}
use development_kit.TreeMap
use development_kit.TreeMap.Values.{Ascends, get-Among}
use development_kit.Shared.SyncQueue.Operation
use development_kit.Shared.SyncQueue.Operation.{SyncOperation, IdempotencyKey}
use development_kit.Shared.SyncQueue.Retry
use development_kit.Shared.SyncQueue.Retry.{RetryPolicy, default, give_up, retry_after}
use development_kit.Shared.SyncQueue.Retry.Backoff.{IsWords, decide_exact}
use development_kit.Shared.SyncQueue.Conflict.{client_wins, last_writer_wins}
use development_kit.Shared.SyncQueue.Queue.{
  SyncQueue, new, get, pending, enqueue, Call, enqueues, marks_synced, records_failure, resolves,
  step, run, resolve_conflict, record_failure, set_status, count_failure,
}
use development_kit.Shared.SyncQueue.Queue.Machine.{advance_all, run-refines}
use development_kit.Shared.SyncQueue.Queue.Rounds.{rounds}
use development_kit.Shared.SyncQueue.Queue.Drain.{rounds-drained}
use development_kit.Shared.SyncQueue.Queue.Invariant.{IsWf, IsWf-new, step-IsWf, run-IsWf}
use development_kit.Shared.SyncQueue.Queue.Dedup.{Kept, run-Kept, enqueue_replay}
use development_kit.Shared.SyncQueue.Queue.Failures.{failures, after_failures, run-failures}
use development_kit.Shared.SyncQueue.Queue.Pending.{pending_lem}
use development_kit.Shared.SyncQueue.Queue.Conflicts.{status_reopens}
use development_kit.Shared.SyncQueue.Store.{persist_to, load, upsert_each}
use development_kit.Shared.SyncQueue.Store.Durable.{Covers, load-persist_to}
use development_kit.Tests.MemoryStore.{
  memory_store, MemoryStore, empty_store, inserted, IsWf-inserted,
}

abbrev note : SyncOperation
note = record {
  idempotency_key = codes "b";
  payload = codes "{}";
  base_revision = some 4;
  status = Operation.pending;
  attempts = 0;
}

abbrev task : SyncOperation
task = record {
  idempotency_key = codes "a";
  payload = codes "[]";
  base_revision = none;
  status = Operation.pending;
  attempts = 0;
}

abbrev calls : List Call
calls =
    enqueues note
    ∷ enqueues task
    ∷ records_failure (codes "a") default
    ∷ resolves (codes "b") 5 last_writer_wins 10 20
    ∷ marks_synced (codes "a")
    ∷ []

abbrev two_notes : SyncQueue
two_notes = record { ops = (codes "a", task) ∷ (codes "b", note) ∷ [] }

two_notes_eq : run (enqueues note ∷ enqueues task ∷ []) new ≡ two_notes
unfolding run step enqueue TreeMap.contains_key TreeMap.get TreeMap.insert str_cmp
two_notes_eq = refl

two_notes-IsWf : IsWf two_notes
two_notes-IsWf = rw (← two_notes_eq) (run-IsWf (enqueues note ∷ enqueues task ∷ []) new IsWf-new)

get-note : get (codes "b") two_notes ≡ some note
unfolding get TreeMap.get str_cmp
get-note = refl

run-refines_example :
    get (codes "b") (run calls two_notes)
    ≡ advance_all calls (codes "b") (get (codes "b") two_notes)
run-refines_example = run-refines calls two_notes (codes "b")

step-IsWf_example : IsWf (step (resolves (codes "b") 5 client_wins 1 2) two_notes)
step-IsWf_example = step-IsWf (resolves (codes "b") 5 client_wins 1 2) two_notes two_notes-IsWf

run-Kept_example : Kept note (get (codes "b") (run calls two_notes))
run-Kept_example = run-Kept calls two_notes (codes "b") note get-note

enqueue_replay_example :
    enqueue note (run calls (enqueue note new).0) ≡ (run calls (enqueue note new).0, false)
enqueue_replay_example = enqueue_replay note note calls new refl

pending_lem_example :
    ((op : SyncOperation)
      → Among op (pending two_notes)
        ↔ ((get op.idempotency_key two_notes ≡ some op) × (op.status ≡ Operation.pending)))
    × Ascends (λ op. op.idempotency_key) (pending two_notes)
pending_lem_example = pending_lem two_notes two_notes-IsWf

run-failures_example :
    get (codes "b") (run (failures 5 (codes "b") default) two_notes)
    ≡ some (after_failures default 5 note)
run-failures_example =
    run-failures 5 (codes "b") default note two_notes (omega arith) (omega arith) get-note refl refl

abbrev synced_note : SyncOperation
synced_note = record note { status = Operation.synced }

abbrev synced_queue : SyncQueue
synced_queue = record { ops = (codes "b", synced_note) ∷ [] }

get-synced_note : get (codes "b") synced_queue ≡ some synced_note
unfolding get TreeMap.get str_cmp
get-synced_note = refl

abbrev one_attempt : RetryPolicy
one_attempt = record { max_attempts = 1; base_delay_ms = 1000; max_delay_ms = 60000 }

status_reopens_example :
    (get (codes "b") (resolve_conflict (codes "b") 5 client_wins 1 2 synced_queue).0
      ≡ some (set_status Operation.pending synced_note))
    × (get (codes "b") (record_failure (codes "b") one_attempt synced_queue).0
        ≡ some (set_status Operation.dead_lettered (count_failure synced_note)))
status_reopens_example =
    status_reopens (codes "b") 5 4 1 2 one_attempt synced_queue synced_note get-synced_note refl
      (omega arith) (omega arith) (omega arith)

default-IsWords : IsWords default
default-IsWords = record { base_bound = omega arith; max_bound = omega arith }

decide_exact_example : Retry.decide default 4 ≡ (
    if leb default.max_attempts 4
    then give_up
    else retry_after (min (default.base_delay_ms * 2 ^ (4 - 1)) default.max_delay_ms))
decide_exact_example = decide_exact default 4 default-IsWords

decide-default :
    (Retry.decide default 2 ≡ retry_after 2000) × (Retry.decide default 4 ≡ retry_after 8000)
unfolding Retry.decide Retry.delay_ms
decide-default = (refl, refl)

two_notes-Covers : Covers memory_store two_notes empty_store
unfolding get TreeMap.get
two_notes-Covers k h = refl

abbrev checkpoint : MemoryStore
checkpoint = (
  inserted note (inserted task new),
  IsWf-inserted note (inserted task new) (IsWf-inserted task new IsWf-new),
)

persist_two_notes : persist_to memory_store two_notes empty_store ≡ ok checkpoint
unfolding persist_to upsert_each TreeMap.values
persist_two_notes = refl

load_checkpoint : memory_store.load_all checkpoint ≡ ok (task ∷ note ∷ [])
unfolding TreeMap.values TreeMap.insert str_cmp
load_checkpoint = refl

load-persist_to_example : load memory_store checkpoint ≡ ok two_notes
load-persist_to_example =
    load-persist_to memory_store two_notes empty_store checkpoint (task ∷ note ∷ []) two_notes-IsWf
      two_notes-Covers persist_two_notes load_checkpoint

few_attempts :
    (k : Str) (op : SyncOperation) → get k two_notes ≡ some op → op.attempts + 1 < u32_modulus
unfolding get TreeMap.values
few_attempts k op h =
    All-at (λ (o : SyncOperation). o.attempts + 1 < u32_modulus) (TreeMap.values two_notes.ops)
      (omega arith) (get-Among k op two_notes.ops h)

rounds-drained_example :
    pending (rounds default 5 (λ n op. str_eq op.idempotency_key (codes "a")) two_notes) ≡ []
rounds-drained_example =
    rounds-drained default 5 (λ n op. str_eq op.idempotency_key (codes "a")) two_notes (omega arith)
      (omega arith) (omega arith) two_notes-IsWf few_attempts
