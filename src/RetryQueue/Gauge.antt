-- ===== src/RetryQueue/Gauge.antt =====
-- What `onDepthChange` reports, and what the providers do with it: onepassword.go and bitwarden.go of
-- internal/provider pass each report to `UpdateQueueDepth` as a difference.
use jasm.Base.{
  ℕ, ℤ, pos, negsuc, zero, suc, ◌+◌, ◌-◌, ◌*◌, ◌^◌, ◌<◌, ◌≡◌, refl, true, false, List, [], ◌∷◌,
  ◌++◌, arith, length, append-nil, append_assoc,
}
use jasm.Metrics.{ProviderMetrics, no_measurements, update_queue_depth}
use jasm.RetryQueue.Steps.{add, launch, tick, succeed, count, Run, here, next}
use jasm.RetryQueue.{
  RetryItem, RetryQueue, new_retry_queue, enqueue, count_added, start, take_item, finish,
}

-- func(delta int64) { providerMetrics.UpdateQueueDepth(context.Background(), delta) }
unfoldable pub on_depth_change : List ℕ → ProviderMetrics → ProviderMetrics
unfolding update_queue_depth
on_depth_change [] m = m
on_depth_change (delta ∷ reports) m = on_depth_change reports (update_queue_depth delta m)

-- The provider's counter behind all reports of its queue.
abbrev pub gauge : RetryQueue → ℕ
gauge q = (on_depth_change q.reports no_measurements).retry_queue_depth

-- Calls of `Add` one after the other.
pub add_all : List RetryItem → RetryQueue → RetryQueue
add_all [] q = q
add_all (item ∷ items) q = add_all items (count_added (enqueue item q))

-- d + 1, d + 2, …, n of them: the reports of n calls of `Add` from the depth d.
counting : ℕ → ℕ → List ℕ
counting d zero = []
counting d (suc n) = (d + 1) ∷ counting (d + 1) n

add_all_lem :
    (items : List RetryItem) (q : RetryQueue)
    → q.notifies ≡ true
    → q.depth + length items < 2 ^ 64
    → ((add_all items q).depth ≡ q.depth + length items)
      × ((add_all items q).reports ≡ q.reports ++ counting q.depth (length items))
unfolding add_all counting count_added enqueue
add_all_lem [] q on fits = (omega arith, rw append-nil)
add_all_lem (item ∷ items) q on fits =
    let next = count_added (enqueue item q) in
    let ih = add_all_lem items next on (omega arith) in
    ground (
      arith,
      ih,
      append_assoc q.reports ((q.depth + 1) ∷ []) (counting (q.depth + 1) (length items)),
    )

gauge_counting :
    (d n : ℕ) (m : ProviderMetrics)
    → 2 * m.retry_queue_depth + n * (2 * d + n + 1) < 2 ^ 64
    → 2 * (on_depth_change (counting d n) m).retry_queue_depth
      ≡ 2 * m.retry_queue_depth + n * (2 * d + n + 1)
unfolding on_depth_change counting
gauge_counting d zero m fits = omega arith
gauge_counting d (suc n) m fits =
    omega (arith, gauge_counting (d + 1) n (update_queue_depth (d + 1) m))

gauge_from :
    (items : List RetryItem) (q : RetryQueue)
    → q.notifies ≡ true
    → q.depth ≡ 0
    → q.reports ≡ []
    → length items * (length items + 1) < 2 ^ 64
    → ((add_all items q).depth ≡ length items)
      × (2 * gauge (add_all items q) ≡ length items * (length items + 1))
gauge_from items q on start_depth no_reports fits =
    let n = length items in
    let (depth, reports) = add_all_lem items q on (grind arith) in
    let logged : (add_all items q).reports ≡ counting 0 n = cc (reports, start_depth, no_reports) in
    let total = gauge_counting 0 n no_measurements (unfold no_measurements in omega arith) in
    (omega arith, rw logged (unfold no_measurements in omega (arith, total)))

-- After n calls of `Add` on a new queue, one after the other, `Depth` is n, and the counter
-- `retry_queue_depth` of the provider stands at 1 + 2 + … + n, as far as twice that fits 64 bits: the
-- queue reports its depth, and the provider adds the report as if it were a difference.
pub gauge_after_adds :
    (max : ℤ) (items : List RetryItem)
    → length items * (length items + 1) < 2 ^ 64
    → ((add_all items (new_retry_queue max true)).depth ≡ length items)
      × (2 * gauge (add_all items (new_retry_queue max true)) ≡ length items * (length items + 1))
unfolding new_retry_queue
gauge_after_adds (pos (suc n)) items fits = gauge_from items _ refl refl refl fits
gauge_after_adds (pos zero) items fits = gauge_from items _ refl refl refl fits
gauge_after_adds (negsuc n) items fits = gauge_from items _ refl refl refl fits

overtaking :
    (item : RetryItem) (q : RetryQueue)
    → q.running ≡ false
    → q.items ≡ []
    → Run q (item ∷ []) (count_added (finish item (take_item (start (enqueue item q)))))
unfolding count_added finish take_item start enqueue
overtaking item q down none_held =
    let added = next [] (item ∷ []) here (add item) in
    let started = next (item ∷ []) [] added launch in
    let taken = next (item ∷ []) [] started (tick (rw down)) in
    let served = next (item ∷ []) [] taken (succeed item (rw (down, none_held))) in
    next (item ∷ []) [] served (count (rw (down, none_held) (omega arith)))

-- The steps of one call of `Add` whose item is served before the call has counted it.
abbrev pub overtaken : ℤ → RetryItem → RetryQueue
overtaken max item =
    count_added (finish item (take_item (start (enqueue item (new_retry_queue max true)))))

-- A retry can succeed before its call of `Add` has counted it: the steps are a run from a new queue,
-- and `onDepthChange` is then called with -1 and after that with 0.
pub depth_goes_negative :
    (max : ℤ) (item : RetryItem)
    → Run (new_retry_queue max true) (item ∷ []) (overtaken max item)
      × ((overtaken max item).reports ≡ (2 ^ 64 - 1) ∷ 0 ∷ [])
unfolding count_added finish take_item start enqueue new_retry_queue
depth_goes_negative (pos (suc n)) item = (overtaking item _ refl refl, refl)
depth_goes_negative (pos zero) item = (overtaking item _ refl refl, refl)
depth_goes_negative (negsuc n) item = (overtaking item _ refl refl, refl)
