-- ===== src/Log/Examples.antt =====
-- log.c on a small transaction, and on an operation that begins and ends.
use chameleon_os.Base.{
  ℕ, suc, ◌+◌, ◌*◌, ◌<◌, ◌≡◌, ◌≢◌, refl, ◌⊎◌, inr, true, false, none, some, [], ◌∷◌, arith, ◌==◌,
  if◌then◌else◌, length, elem,
}
use chameleon_os.Base.Machine.{panic}
use chameleon_os.Store
use chameleon_os.Store.{Block, Store}
use chameleon_os.Log.{
  Log, log_size, max_op_blocks, commit, begin_op, end_op_count, log_write, fresh,
}
use chameleon_os.Log.Crash.{IsReady, new_contents, recover, commit_crash}
use chameleon_os.Log.Contents.{log_write_lem}
use chameleon_os.Log.Reserve.{
  Sys, Reach, here, next, begin, sleep, end, booted, write_no_panic, no_lost_wakeup,
}

abbrev seven : Block
seven = λ i. 7

-- Block 40 is logged, with new contents in the cache.
abbrev store : Store
store = record { disk = λ b i. 0; pinned = λ b. if b == 40 then some seven else none; power = 100 }

abbrev log : Log
log = record {
  start = 2;
  size = 31;
  outstanding = 1;
  committing = false;
  lh = 40 ∷ [];
  waiting = 0;
}

log-IsReady : IsReady log store
log-IsReady = record {
  clean = refl;
  unpinned = λ x lo hi. ground arith;
  outside = (ground arith, tt);
  fits = omega arith;
  small = omega arith;
}

commit_crash_example :
    let d = (commit log (record store { power = 2 })).1.disk in
    let d' = (recover 2 31 d 1).1.disk in
    let (l', s') = recover 2 31 d' 50 in
    (s'.disk 40 ≡ new_contents log store 40) × (s'.disk 2 0 ≡ 0) × (l'.lh ≡ [])
commit_crash_example =
    commit_crash log store 2 1 50 40 log-IsReady (omega arith) (inr (omega arith))

log_write_lem_example :
    let l = record log { lh = 40 ∷ 41 ∷ [] } in
    let s = Store.pin store 41 seven in
    IsReady l s
    × ((x : ℕ) → new_contents l s x ≡ (if 41 == x then seven else new_contents log store x))
    × (length l.lh ≡ (if elem 41 log.lh then length log.lh else suc (length log.lh)))
unfolding log_write
log_write_lem_example =
    log_write_lem log (record log { lh = 40 ∷ 41 ∷ [] }) store (Store.pin store 41 seven) 41 seven
      log-IsReady (inr (omega arith)) refl

abbrev empty : Store
empty = record { disk = λ b i. 0; pinned = λ b. none; power = 100 }

-- One operation has begun, in a log of 31 blocks.
abbrev one_begun : Sys
one_begun = record { log = record (fresh 2 31) { outstanding = 1 }; store = empty; left = 10 ∷ [] }

one_begun-Reach : Reach (booted 2 31 empty) one_begun
unfolding begin_op
one_begun-Reach = next here (begin (record (fresh 2 31) { outstanding = 1 }) refl)

write_no_panic_example : log_write one_begun.log one_begun.store 40 seven ≢ panic
write_no_panic_example = write_no_panic 2 31 empty 0 9 40 seven (omega arith) one_begun-Reach refl

-- The operation ends, and while it commits another process finds the log busy.
abbrev one_waits : Sys
one_waits = record {
  log = record (fresh 2 31) { committing = true; waiting = 1 };
  store = empty;
  left = [];
}

one_waits-Reach : Reach (booted 2 31 empty) one_waits
unfolding begin_op end_op_count
one_waits-Reach =
    next
      (next one_begun-Reach
        (end (record (fresh 2 31) { committing = true }) true [] [] 10 refl refl))
      (sleep one_waits.log refl)

no_lost_wakeup_example :
    (one_waits.log.committing ≡ true)
    ⊎ (log_size < length one_waits.log.lh + (length one_waits.left + 1) * max_op_blocks)
no_lost_wakeup_example = no_lost_wakeup 2 31 empty one_waits-Reach (λ e. absurd (omega (arith, e)))
