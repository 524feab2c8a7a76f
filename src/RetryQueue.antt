-- ===== src/RetryQueue.antt =====
-- internal/provider/retry_queue.go. The callers of `Add`, `Start` and `Stop` and the goroutine of
-- `process` run at the same time, so each method is cut where it takes or leaves the mutex, changes
-- an atomic or waits; RetryQueue/Steps.antt says which part may run when. What a closure does is
-- chosen by the environment, and what it is called with is logged.
pub mod Backoff
pub mod Steps
pub mod Depth
pub mod Gauge
pub mod Conserve
pub mod Restart
use jasm.Base.{
  ℕ, zero, suc, ℤ, pos, negsuc, suc_ℤ, ◌+◌, ◌-◌, ◌*◌, ◌%◌, ◌^◌, Bool, true, false, ◌&&◌, List, [],
  ◌∷◌, ◌++◌, ltb, if◌then◌else◌,
}
use jasm.Text.{Bytes}

-- type RetryItem: `task` stands for the two closures, and `on_complete` says that `OnComplete` is set.
pub record RetryItem : Type 0 where
  pub path : Bytes
  pub attempt : ℤ
  pub task : ℕ
  pub on_complete : Bool

-- Where the goroutine of `process` is: not running, in its `select`, or behind the backoff's `select`
-- with an item taken from the queue.
pub data Worker : Type 0 where
  absent idle : Worker
  waiting : RetryItem → Worker

-- type RetryQueue. `depth` is the bit pattern of an int64, `adding` counts the calls of `Add` between
-- the mutex and the atomic, `stopping` is a closed `stopCh`, `cancelled` a context that is done. Of the
-- calls of `Stop` that found the queue running, `stops` counts all, and `entering`, `closing` and `opening`
-- those before the close of `stopCh`, before `running.Store(false)` and before the new `stopCh`; `crashes`
-- counts those that panicked, since they closed a closed channel;
-- `reports` logs the arguments of `onDepthChange`, `succeeded` the items whose retry succeeded and
-- `completions` the calls of `OnComplete`.
pub record RetryQueue : Type 0 where
  pub base_backoff : ℕ
  pub max_backoff : ℕ
  pub notifies : Bool
  pub items : List RetryItem
  pub depth : ℕ
  pub running : Bool
  pub worker : Worker
  pub adding : ℕ
  pub stopping : Bool
  pub stops : ℕ
  pub entering : ℕ
  pub closing : ℕ
  pub opening : ℕ
  pub crashes : ℕ
  pub cancelled : Bool
  pub reports : List ℕ
  pub succeeded : List RetryItem
  pub completions : List RetryItem

-- defaultBaseBackoff and defaultMaxBackoff, in nanoseconds
abbrev pub default_base_backoff : ℕ
default_base_backoff = 1_000_000_000

abbrev pub default_max_backoff : ℕ
default_max_backoff = 300_000_000_000

abbrev empty_queue : ℕ → Bool → RetryQueue
empty_queue max notifies = record {
  base_backoff = default_base_backoff;
  max_backoff = max;
  notifies = notifies;
  items = [];
  depth = 0;
  running = false;
  worker = absent;
  adding = 0;
  stopping = false;
  stops = 0;
  entering = 0;
  closing = 0;
  opening = 0;
  crashes = 0;
  cancelled = false;
  reports = [];
  succeeded = [];
  completions = [];
}

-- NewRetryQueue
unfoldable pub new_retry_queue : ℤ → Bool → RetryQueue
new_retry_queue (pos (suc n)) notifies = empty_queue (suc n) notifies
new_retry_queue _ notifies = empty_queue default_max_backoff notifies

abbrev pub report : Bool → ℕ → List ℕ → List ℕ
report notifies new_depth log = if notifies then log ++ new_depth ∷ [] else log

-- Add, to the end of the locked part
unfoldable pub enqueue : RetryItem → RetryQueue → RetryQueue
enqueue item q = record q { items = q.items ++ item ∷ []; adding = q.adding + 1 }

-- Add, behind the locked part: `depth.Add(1)` and the callback
unfoldable pub count_added : RetryQueue → RetryQueue
count_added q =
    let new_depth = (q.depth + 1) % 2 ^ 64 in
    record q {
      depth = new_depth;
      adding = q.adding - 1;
      reports = report q.notifies new_depth q.reports;
    }

-- Start, as one part: a `Stop` between its `running.Swap` and its `q.wg.Add` is left out
unfoldable pub start : RetryQueue → RetryQueue
start q = if q.running then q else record q { running = true; worker = idle; cancelled = false }

-- Stop: `running.Load()`
unfoldable pub enter_stop : RetryQueue → RetryQueue
enter_stop q = if q.running then record q { stops = q.stops + 1; entering = q.entering + 1 } else q

-- Stop: `close(q.stopCh)`, which panics where the channel is closed
unfoldable pub close_stop : RetryQueue → RetryQueue
close_stop q =
    if q.stopping
    then record q { entering = q.entering - 1; crashes = q.crashes + 1 }
    else record q { stopping = true; entering = q.entering - 1; closing = q.closing + 1 }

-- Stop, behind `q.wg.Wait()`: `running.Store(false)`
unfoldable pub unmark : RetryQueue → RetryQueue
unmark q = record q { running = false; closing = q.closing - 1; opening = q.opening + 1 }

-- Stop: `q.stopCh = make(chan struct{})`
unfoldable pub reopen : RetryQueue → RetryQueue
reopen q = record q { stopping = false; opening = q.opening - 1 }

-- processNextItem, to the end of its first locked part
unfoldable pub take_item : RetryQueue → RetryQueue
take_item q = elim q.items [
  | [] ↦ q
  | item ∷ rest ↦ record q { items = rest; worker = waiting item }
]

-- processNextItem: the context is done or a stop is requested during the backoff
unfoldable pub readd : RetryItem → RetryQueue → RetryQueue
readd item q = record q { items = item ∷ q.items; worker = idle }

-- item.Attempt++
abbrev pub retried : RetryItem → RetryItem
retried item = record item { attempt = suc_ℤ item.attempt }

-- processNextItem: the retry fails
unfoldable pub requeue : RetryItem → RetryQueue → RetryQueue
requeue item q = record q { items = q.items ++ retried item ∷ []; worker = idle }

-- processNextItem: the retry succeeds
unfoldable pub finish : RetryItem → RetryQueue → RetryQueue
finish item q =
    let new_depth = (q.depth + (2 ^ 64 - 1)) % 2 ^ 64 in
    record q {
      depth = new_depth;
      worker = idle;
      reports = report q.notifies new_depth q.reports;
      succeeded = q.succeeded ++ item ∷ [];
      completions = if item.on_complete then q.completions ++ item ∷ [] else q.completions;
    }

-- The loop of `calculateBackoff`: `backoff *= 2` wraps around as an int64, and `>` is signed.
backoff_loop : ℕ → ℕ → ℕ → ℕ
backoff_loop zero max backoff = backoff
backoff_loop (suc rounds) max backoff =
    let doubled = (backoff * 2) % 2 ^ 64 in
    let rest = backoff_loop rounds max doubled in
    if ltb max doubled && ltb doubled (2 ^ 63) then max else rest

-- calculateBackoff
unfoldable pub calculate_backoff : RetryQueue → ℤ → ℕ
unfolding backoff_loop
calculate_backoff q (pos (suc n)) = backoff_loop n q.max_backoff q.base_backoff
calculate_backoff q _ = 0
