-- ===== src/RetryQueue/Conserve.antt =====
-- No item is lost or served twice.
use jasm.Base.{
  ℕ, ℤ, pos, negsuc, zero, suc, Bool, refl, ◌+◌, ◌≡◌, false, List, [], ◌∷◌, ◌++◌, arith, ◌==◌,
  if◌then◌else◌,
}
use jasm.RetryQueue.{
  RetryItem, RetryQueue, new_retry_queue, enqueue, count_added, start, enter_stop, close_stop,
  unmark, reopen, take_item, readd, requeue, finish, retried, absent,
}
use jasm.RetryQueue.Depth.{held, Run-IsBalanced, IsBalanced-new}
use jasm.RetryQueue.Steps.{
  Step, add, count, launch, enter, close, stopped, open_again, cancel, leave, tick, abort, fail,
  succeed, Run, here, next,
}

-- How many items of a list carry the closures `t`.
pub count_task : ℕ → List RetryItem → ℕ
count_task t [] = 0
count_task t (item ∷ items) = (if item.task == t then 1 else 0) + count_task t items

count_task-append :
    (t : ℕ) (xs ys : List RetryItem) → count_task t (xs ++ ys) ≡ count_task t xs + count_task t ys
unfolding count_task
count_task-append t [] ys = omega arith
count_task-append t (x ∷ xs) ys = omega (arith, count_task-append t xs ys)

-- In the queue, in the goroutine's hands, or done.
abbrev pub accounted : ℕ → RetryQueue → ℕ
accounted t q = count_task t q.items + count_task t (held q.worker) + count_task t q.succeeded

Step-accounted :
    (t : ℕ) {q u : RetryQueue} {new : List RetryItem}
    → Step q new u
    → (q.running ≡ false → q.worker ≡ absent)
    → accounted t u ≡ accounted t q + count_task t new
unfolding enqueue count_added start enter_stop close_stop unmark reopen take_item readd requeue
    finish count_task
Step-accounted t {q} (add item) m = ground (arith, count_task-append t q.items (item ∷ []))
Step-accounted t (count p) m = ground arith
Step-accounted t launch m = ground arith
Step-accounted t enter m = ground arith
Step-accounted t (close p) m = ground arith
Step-accounted t (stopped p r) m = ground arith
Step-accounted t (open_again p) m = ground arith
Step-accounted t cancel m = ground arith
Step-accounted t (leave p r) m = ground arith
Step-accounted t (tick p) m = ground arith
Step-accounted t (abort item p r) m = ground arith
Step-accounted t {q} (fail item p) m =
    ground (arith, count_task-append t q.items (retried item ∷ []))
Step-accounted t {q} (succeed item p) m =
    ground (arith, count_task-append t q.succeeded (item ∷ []))

accounted-new : (max : ℤ) (notifies : Bool) (t : ℕ) → accounted t (new_retry_queue max notifies) ≡ 0
unfolding new_retry_queue count_task
accounted-new (pos (suc n)) notifies t = refl
accounted-new (pos zero) notifies t = refl
accounted-new (negsuc n) notifies t = refl

-- After any interleaving of the methods from a new queue, every item that was added is, exactly once,
-- in the queue, in the goroutine's hands, or served.
pub no_item_lost :
    (max : ℤ) (notifies : Bool) {q : RetryQueue} {added : List RetryItem}
    → Run (new_retry_queue max notifies) added q
    → (t : ℕ) → accounted t q ≡ count_task t added
no_item_lost max notifies here t = rw (accounted-new max notifies t) (unfold count_task in refl)
no_item_lost max notifies (next added new r st) t = omega (
  arith,
  Step-accounted t st (Run-IsBalanced (IsBalanced-new max notifies) r).marked,
  no_item_lost max notifies r t,
  count_task-append t new added,
)
