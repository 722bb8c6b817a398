-- ===== src/Backoff/Tests.antt =====
-- core/backoff.rs: the theorems on concrete backoffs.
use crossync.Prelude.{◌≡◌, true, false, replicate}
use crossync.Backoff.{new_backoff, hints, is_completed, is_yielding, snooze, do_snooze, apply_ops}
use crossync.Backoff.Laws.{snooze_course}

-- With four processors the spin limit is 8 and the yield limit 12.
snooze_course_example :
    let b = apply_ops (replicate 8 do_snooze) (new_backoff 4) in
    (is_yielding b ≡ true) × ((snooze b).0 ≡ hints 256) × (is_completed b ≡ false)
unfolding new_backoff
snooze_course_example = snooze_course 4 8
