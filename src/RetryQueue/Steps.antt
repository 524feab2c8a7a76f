-- ===== src/RetryQueue/Steps.antt =====
-- Which part of a method may run when: the interleavings of the callers and the goroutine of
-- `process` in internal/provider/retry_queue.go.
use jasm.Base.{◌<◌, Bool, true, ◌||◌, ◌≡◌, List, [], ◌∷◌, ◌++◌}
use jasm.RetryQueue.{
  RetryItem, RetryQueue, absent, idle, waiting, enqueue, count_added, start, enter_stop, close_stop,
  unmark, reopen, take_item, readd, requeue, finish,
}

-- The goroutine is told to end: its context is done, or `stopCh` is closed.
abbrev pub told_to_end : RetryQueue → Bool
told_to_end q = q.cancelled || q.stopping

-- One step, with the items that it adds.
pub data Step (q : RetryQueue) : List RetryItem → RetryQueue → Type 0 where
  -- Add
  add : (item : RetryItem) → Step q (item ∷ []) (enqueue item q)
  count : 0 < q.adding → Step q [] (count_added q)
  -- Start
  launch : Step q [] (start q)
  -- Stop
  enter : Step q [] (enter_stop q)
  close : 0 < q.entering → Step q [] (close_stop q)
  stopped : 0 < q.closing → q.worker ≡ absent → Step q [] (unmark q)
  open_again : 0 < q.opening → Step q [] (reopen q)
  -- the context is done
  cancel : Step q [] (record q { cancelled = true })
  -- process
  leave : q.worker ≡ idle → told_to_end q ≡ true → Step q [] (record q { worker = absent })
  tick : q.worker ≡ idle → Step q [] (take_item q)
  abort :
      (item : RetryItem) → q.worker ≡ waiting item → told_to_end q ≡ true → Step q [] (readd item q)
  fail : (item : RetryItem) → q.worker ≡ waiting item → Step q [] (requeue item q)
  succeed : (item : RetryItem) → q.worker ≡ waiting item → Step q [] (finish item q)

-- Some steps in a row, with all the items that they add.
pub data Run (s : RetryQueue) : List RetryItem → RetryQueue → Type 0 where
  here : Run s [] s
  next :
      {q t : RetryQueue} (added new : List RetryItem)
      → Run s added q
      → Step q new t
      → Run s (new ++ added) t
