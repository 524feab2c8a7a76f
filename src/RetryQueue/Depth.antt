-- ===== src/RetryQueue/Depth.antt =====
-- `Depth` against the items that the queue holds, and that no item is lost.
use jasm.Base.{
  zero, suc, ℤ, pos, negsuc, ◌+◌, ◌%◌, ◌^◌, ◌<◌, ◌≡◌, Bool, false, List, [], ◌∷◌, arith, length,
  length-append,
}
use jasm.RetryQueue.{
  RetryItem, RetryQueue, Worker, absent, idle, waiting, new_retry_queue, enqueue, count_added,
  start, enter_stop, close_stop, unmark, reopen, take_item, readd, requeue, finish, retried,
}
use jasm.RetryQueue.Steps.{
  Step, add, count, launch, enter, close, stopped, open_again, cancel, leave, tick, abort, fail,
  succeed, Run, here, next,
}

-- The items that the goroutine has taken and not put back.
abbrev pub held : Worker → List RetryItem
held absent = []
held idle = []
held (waiting item) = item ∷ []

-- The goroutine holds an item only while it runs, and it runs only if the queue is marked running.
-- The depth, with the calls of `Add` that are still to be counted, is the number of items in the
-- queue or in the goroutine's hands, as an int64.
pub record IsBalanced (q : RetryQueue) : Type 0 where
  pub counted : (q.depth + q.adding) % 2 ^ 64 ≡ (length q.items + length (held q.worker)) % 2 ^ 64
  pub depth_fits : q.depth < 2 ^ 64
  pub marked : q.running ≡ false → q.worker ≡ absent

Step-IsBalanced :
    {q t : RetryQueue} {new : List RetryItem} → Step q new t → IsBalanced q → IsBalanced t
unfolding enqueue count_added start enter_stop close_stop unmark reopen take_item readd requeue
    finish
Step-IsBalanced {q} (add item) h = ground (arith, length-append q.items (item ∷ []))
Step-IsBalanced (count p) h = ground arith
Step-IsBalanced launch h = ground arith
Step-IsBalanced enter h = ground arith
Step-IsBalanced (close p) h = ground arith
Step-IsBalanced (stopped p r) h = ground arith
Step-IsBalanced (open_again p) h = ground arith
Step-IsBalanced cancel h = ground arith
Step-IsBalanced (leave p r) h = ground arith
Step-IsBalanced (tick p) h = ground arith
Step-IsBalanced (abort item p r) h = ground arith
Step-IsBalanced {q} (fail item p) h = ground (arith, length-append q.items (retried item ∷ []))
Step-IsBalanced (succeed item p) h = ground arith

-- From a new queue, whatever the interleaving, the depth and the calls of `Add` still to be counted
-- make up the number of items held, modulo 2^64, and a queue not marked running has no goroutine.
pub Run-IsBalanced :
    {s q : RetryQueue} {added : List RetryItem} → IsBalanced s → Run s added q → IsBalanced q
Run-IsBalanced h here = h
Run-IsBalanced h (next added new r st) = Step-IsBalanced st (Run-IsBalanced h r)

pub IsBalanced-new : (max : ℤ) (notifies : Bool) → IsBalanced (new_retry_queue max notifies)
unfolding new_retry_queue
IsBalanced-new (pos (suc n)) notifies = ground arith
IsBalanced-new (pos zero) notifies = ground arith
IsBalanced-new (negsuc n) notifies = ground arith

-- Once every call of `Add` has been counted and the goroutine holds no item, `Depth` is the length of
-- the queue, modulo 2^64, after any interleaving of the methods from a new queue.
pub depth-eq-length :
    (max : ℤ) (notifies : Bool) {q : RetryQueue} {added : List RetryItem}
    → Run (new_retry_queue max notifies) added q
    → q.adding ≡ 0
    → held q.worker ≡ []
    → q.depth ≡ length q.items % 2 ^ 64
depth-eq-length max notifies r none_adding none_held =
    let b = Run-IsBalanced (IsBalanced-new max notifies) r in
    ground (arith, b.counted, b.depth_fits)
