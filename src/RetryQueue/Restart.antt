-- ===== src/RetryQueue/Restart.antt =====
-- A queue whose goroutine has left because its context ended.
use jasm.Base.{◌≡◌, refl, true, false, ◌+◌, ◌≤◌, arith, List, ◌⊎◌, inl, inr}
use jasm.RetryQueue.{
  RetryItem, RetryQueue, enqueue, count_added, start, enter_stop, close_stop, unmark, reopen,
  take_item, readd, requeue, finish, absent, idle,
}
use jasm.RetryQueue.Steps.{
  Step, add, count, launch, enter, close, stopped, open_again, cancel, leave, tick, abort, fail,
  succeed, Run, here, next,
}

-- No call of `Stop` is under way.
pub record IsUnstopped (q : RetryQueue) : Type 0 where
  pub open_stop : q.stopping ≡ false
  pub none_entering : q.entering ≡ 0
  pub none_closing : q.closing ≡ 0

-- The goroutine is gone, the queue is marked running, and no call of `Stop` is under way.
pub record IsDown (q : RetryQueue) : Type 0 where
  pub gone : q.worker ≡ absent
  pub marked : q.running ≡ true
  pub none_entering : q.entering ≡ 0
  pub none_closing : q.closing ≡ 0

-- The step in which the goroutine leaves.
leave-IsDown :
    {q t : RetryQueue} {new : List RetryItem}
    → q.running ≡ true
    → q.worker ≡ idle
    → IsUnstopped q
    → Step q new t
    → t.worker ≡ absent
    → (q.cancelled ≡ true) × IsDown t
unfolding enqueue count_added start enter_stop close_stop unmark reopen take_item readd requeue
    finish
leave-IsDown m i h (add item) g = ground arith
leave-IsDown m i h (count p) g = ground arith
leave-IsDown m i h launch g = ground arith
leave-IsDown m i h enter g = ground arith
leave-IsDown m i h (close p) g = ground arith
leave-IsDown m i h (stopped p r) g = ground arith
leave-IsDown m i h (open_again p) g = ground arith
leave-IsDown m i h cancel g = ground arith
leave-IsDown m i h (leave p r) g = ground arith
leave-IsDown m i h (tick p) g = ground arith
leave-IsDown m i h (abort item p r) g = ground arith
leave-IsDown m i h (fail item p) g = ground arith
leave-IsDown m i h (succeed item p) g = ground arith

-- A step leaves the queue down, or it is a call of `Stop`; no step takes back a call.
Step-IsDown :
    {q t : RetryQueue} {new : List RetryItem}
    → Step q new t
    → (q.stops ≤ t.stops) × (IsDown q → IsDown t ⊎ (t.stops ≡ q.stops + 1))
unfolding enqueue count_added start enter_stop close_stop unmark reopen take_item readd requeue
    finish
Step-IsDown (add item) = (ground arith, λ h. inl (ground arith))
Step-IsDown (count p) = (ground arith, λ h. inl (ground arith))
Step-IsDown launch = (ground arith, λ h. inl (ground arith))
Step-IsDown enter = (ground arith, λ h. inr (ground arith))
Step-IsDown (close p) = (ground arith, λ h. ground arith)
Step-IsDown (stopped p r) = (ground arith, λ h. ground arith)
Step-IsDown (open_again p) = (ground arith, λ h. inl (ground arith))
Step-IsDown cancel = (ground arith, λ h. inl (ground arith))
Step-IsDown (leave p r) = (ground arith, λ h. ground arith)
Step-IsDown (tick p) = (ground arith, λ h. ground arith)
Step-IsDown (abort item p r) = (ground arith, λ h. ground arith)
Step-IsDown (fail item p) = (ground arith, λ h. ground arith)
Step-IsDown (succeed item p) = (ground arith, λ h. ground arith)

Run-IsDown :
    {t u : RetryQueue} {added : List RetryItem}
    → IsDown t
    → Run t added u
    → (t.stops ≤ u.stops) × (u.stops ≡ t.stops → IsDown u)
Run-IsDown h here = (omega arith, λ e. h)
Run-IsDown h (next added new r st) =
    let (low, down) = Run-IsDown h r in
    let (up, kept) = Step-IsDown st in
    (
      omega (arith, low, up),
      λ e. elim (kept (down (omega (arith, low, up)))) [
        | inl d ↦ d
        | inr more ↦ absurd (omega (arith, low, up, more))
      ],
    )

down-start : {q : RetryQueue} → IsDown q → start q ≡ q
unfolding start
down-start h = rw h.marked refl

-- If the goroutine of a running queue leaves its `select` while no call of `Stop` is under way, then its
-- context is done, the queue stays marked running, and through any steps that follow without a new call of
-- `Stop` there is no goroutine and `Start`, with whatever context, does nothing.
pub start_after_cancel :
    {q t u : RetryQueue} {new added : List RetryItem}
    → q.running ≡ true
    → q.worker ≡ idle
    → IsUnstopped q
    → Step q new t
    → t.worker ≡ absent
    → Run t added u
    → u.stops ≡ t.stops
    → (q.cancelled ≡ true) × IsDown u × (start u ≡ u)
start_after_cancel m i h st g r quiet =
    let (done, down) = leave-IsDown m i h st g in
    let d = (Run-IsDown down r).1 quiet in (done, d, down-start d)
