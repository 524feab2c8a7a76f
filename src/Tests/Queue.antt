-- ===== src/Tests/Queue.antt =====
-- Runs of the retry queue of internal/provider/retry_queue.go.
use jasm.Base.{
  ℕ, suc, pos, negsuc, ◌+◌, ◌*◌, ◌-◌, ◌%◌, ◌^◌, min, ◌≡◌, refl, true, false, [], ◌∷◌, arith, length,
}
use jasm.Text.{codes}
use jasm.RetryQueue.{
  RetryItem, RetryQueue, new_retry_queue, enqueue, count_added, start, enter_stop, close_stop,
  absent, calculate_backoff,
}
use jasm.RetryQueue.Steps.{add, count, launch, enter, close, leave, Run, here, next}
use jasm.RetryQueue.Depth.{depth-eq-length}
use jasm.RetryQueue.Conserve.{accounted, count_task, no_item_lost}
use jasm.RetryQueue.Backoff.{calculate_backoff_exact}
use jasm.RetryQueue.Gauge.{gauge, add_all, gauge_after_adds, overtaken, depth_goes_negative}
use jasm.RetryQueue.Restart.{IsDown, start_after_cancel}

abbrev item : RetryItem
item = record { path = codes "op://v/i"; attempt = pos 0; task = 4; on_complete = true }

abbrev other : RetryItem
other = record { path = codes "op://v/j"; attempt = pos 1; task = 5; on_complete = false }

abbrev fresh_queue : RetryQueue
fresh_queue = new_retry_queue (pos 0) true

abbrev one_added : RetryQueue
one_added = count_added (enqueue item fresh_queue)

one_run : Run fresh_queue (item ∷ []) one_added
unfolding new_retry_queue enqueue
one_run = next (item ∷ []) [] (next [] (item ∷ []) here (add item)) (count (omega arith))

depth-eq-length_example : one_added.depth ≡ length one_added.items % 2 ^ 64
unfolding new_retry_queue enqueue count_added
depth-eq-length_example = depth-eq-length (pos 0) true one_run refl refl

no_item_lost_example : accounted 4 one_added ≡ count_task 4 (item ∷ [])
no_item_lost_example = no_item_lost (pos 0) true one_run 4

calculate_backoff_exact_example :
    ((n : ℕ)
      → calculate_backoff fresh_queue (pos (suc n))
        ≡ min (fresh_queue.base_backoff * 2 ^ n) fresh_queue.max_backoff)
    × (calculate_backoff fresh_queue (pos 0) ≡ 0)
    × ((n : ℕ) → calculate_backoff fresh_queue (negsuc n) ≡ 0)
unfolding new_retry_queue
calculate_backoff_exact_example = calculate_backoff_exact fresh_queue (omega arith) (omega arith)

-- The ninth retry would wait 512 seconds, and waits five minutes.
ninth_backoff : calculate_backoff fresh_queue (pos 10) ≡ 300_000_000_000
unfolding calculate_backoff new_retry_queue
ninth_backoff = refl

-- A maximum below the base is exceeded by the first wait.
first_backoff_exceeds : calculate_backoff (new_retry_queue (pos 5) true) (pos 1) ≡ 1_000_000_000
unfolding calculate_backoff new_retry_queue
first_backoff_exceeds = refl

gauge_after_adds_example :
    ((add_all (item ∷ other ∷ []) fresh_queue).depth ≡ length (item ∷ other ∷ []))
    × (2 * gauge (add_all (item ∷ other ∷ []) fresh_queue)
        ≡ length (item ∷ other ∷ []) * (length (item ∷ other ∷ []) + 1))
gauge_after_adds_example = gauge_after_adds (pos 0) (item ∷ other ∷ []) (omega arith)

depth_goes_negative_example :
    Run (new_retry_queue (pos 0) true) (item ∷ []) (overtaken (pos 0) item)
    × ((overtaken (pos 0) item).reports ≡ (2 ^ 64 - 1) ∷ 0 ∷ [])
depth_goes_negative_example = depth_goes_negative (pos 0) item

-- The context of a started queue ends.
abbrev cancelled_queue : RetryQueue
cancelled_queue = record (start fresh_queue) { cancelled = true }

abbrev down_queue : RetryQueue
down_queue = record cancelled_queue { worker = absent }

start_after_cancel_example :
    (cancelled_queue.cancelled ≡ true)
    × IsDown (start down_queue)
    × (start (start down_queue) ≡ start down_queue)
unfolding new_retry_queue start
start_after_cancel_example =
    start_after_cancel {q = cancelled_queue} refl refl
      (record { open_stop = refl; none_entering = refl; none_closing = refl }) (leave refl refl)
      refl (next [] [] here launch) refl

-- Two calls of `Stop` at once: the second one panics.
abbrev stopped_twice : RetryQueue
stopped_twice = close_stop (close_stop (enter_stop (enter_stop (start fresh_queue))))

two_stops_run : Run fresh_queue [] stopped_twice
unfolding new_retry_queue start enter_stop close_stop
two_stops_run =
    next [] []
      (next [] [] (next [] [] (next [] [] (next [] [] here launch) enter) enter)
        (close (omega arith)))
      (close (omega arith))

two_stops_crash : stopped_twice.crashes ≡ 1
unfolding new_retry_queue start enter_stop close_stop
two_stops_crash = refl
