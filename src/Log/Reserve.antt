-- ===== src/Log/Reserve.antt =====
-- The reservation of log space by `begin_op`: the operations of log.c in any interleaving, where
-- each operation writes at most MAXOPBLOCKS new blocks between `begin_op` and `end_op`.
use chameleon_os.Base.{
  ℕ, zero, suc, ◌+◌, ◌*◌, ◌≤◌, ◌<◌, ◌≡◌, refl, ◌≢◌, ◌⊎◌, Bool, true, false, some, List, [], ◌∷◌,
  ◌++◌, arith, sym, ◌∙◌, ap, if◌then◌else◌, length, length-append, elem, get_elem?, set, All,
}
use chameleon_os.Base.Machine.{ok, panic}
use chameleon_os.Store.{Block, Store}
use chameleon_os.Log.{
  Log, log_size, max_op_blocks, begin_op, end_op_count, end_op_commit, commit, log_write, fresh,
}

-- The log, the store, and for each operation in progress how many new blocks it may still write.
pub record Sys : Type 0 where
  pub log : Log
  pub store : Store
  pub left : List ℕ

pub data Step (y : Sys) : Sys → Type 0 where
  begin :
      (l : Log)
      → begin_op y.log ≡ (l, true)
      → Step y (record y { log = l; left = max_op_blocks ∷ y.left })
  sleep : (l : Log) → begin_op y.log ≡ (l, false) → Step y (record y { log = l })
  write :
      (i r b : ℕ) (v : Block) (l : Log) (s : Store)
      → get_elem? y.left i ≡ some (suc r)
      → log_write y.log y.store b v ≡ ok (l, s)
      → Step y (record {
        log = l;
        store = s;
        left = set y.left i (if elem b y.log.lh then suc r else r);
      })
  end :
      (l : Log) (do_commit : Bool) (xs ys : List ℕ) (r : ℕ)
      → y.left ≡ xs ++ r ∷ ys
      → end_op_count y.log ≡ ok (l, do_commit)
      → Step y (record y { log = l; left = xs ++ ys })
  finish :
      (l : Log) (s : Store)
      → y.log.committing ≡ true
      → end_op_commit y.log y.store ≡ (l, s)
      → Step y (record y { log = l; store = s })

pub data Reach (y : Sys) : Sys → Type 0 where
  here : Reach y y
  next : {z w : Sys} → Reach y z → Step z w → Reach y w

abbrev pub sum : List ℕ → ℕ
sum [] = 0
sum (x ∷ xs) = x + sum xs

pub record IsReserved (y : Sys) : Type 0 where
  pub counted : y.log.outstanding ≡ length y.left
  pub few : length y.left ≤ 3
  pub room : length y.log.lh + sum y.left ≤ log_size
  pub budgets : All (λ r. r ≤ max_op_blocks) y.left
  pub quiet : y.log.committing ≡ true → y.left ≡ []
  -- Whoever sleeps on `&log` has a reason to: no wakeup was lost.
  pub waiting :
      (y.log.waiting ≡ 0)
      ⊎ (y.log.committing ≡ true)
      ⊎ (log_size < length y.log.lh + (length y.left + 1) * max_op_blocks)

sum-le : (xs : List ℕ) → All (λ r. r ≤ max_op_blocks) xs → sum xs ≤ length xs * max_op_blocks
sum-le [] h = omega arith
sum-le (x ∷ xs) h = omega (arith, sum-le xs h.1)

sum-set :
    (xs : List ℕ) (i r v : ℕ)
    → get_elem? xs i ≡ some r
    → (sum (set xs i v) + r ≡ sum xs + v) × (length (set xs i v) ≡ length xs)
sum-set [] i r v h = absurd (ground arith)
sum-set (x ∷ xs) zero r v h = (ground arith, refl)
sum-set (x ∷ xs) (suc i) r v h = ground (arith, sum-set xs i r v)

All-set :
    (xs : List ℕ) (i r v : ℕ)
    → get_elem? xs i ≡ some r
    → v ≤ r
    → All (λ r. r ≤ max_op_blocks) xs
    → All (λ r. r ≤ max_op_blocks) (set xs i v)
All-set [] i r v h le a = tt
All-set (x ∷ xs) zero r v h le a = (ground arith, a.1)
All-set (x ∷ xs) (suc i) r v h le a = (a.0, All-set xs i r v h le a.1)

sum-remove :
    (xs ys : List ℕ) (r : ℕ)
    → (sum (xs ++ r ∷ ys) ≡ sum (xs ++ ys) + r) × (length (xs ++ r ∷ ys) ≡ suc (length (xs ++ ys)))
sum-remove [] ys r = (omega arith, refl)
sum-remove (x ∷ xs) ys r = omega (arith, sum-remove xs ys r)

All-remove :
    (xs ys : List ℕ) (r : ℕ)
    → All (λ r. r ≤ max_op_blocks) (xs ++ r ∷ ys)
    → All (λ r. r ≤ max_op_blocks) (xs ++ ys)
All-remove [] ys r a = a.1
All-remove (x ∷ xs) ys r a = (a.0, All-remove xs ys r a.1)

pos : (xs : List ℕ) (i r : ℕ) → get_elem? xs i ≡ some (suc r) → 0 < length xs
pos [] i r h = absurd (ground arith)
pos (x ∷ xs) i r h = omega arith

sum_pos : (xs : List ℕ) (i r : ℕ) → get_elem? xs i ≡ some (suc r) → suc r ≤ sum xs
sum_pos [] i r h = absurd (ground arith)
sum_pos (x ∷ xs) zero r h = ground arith
sum_pos (x ∷ xs) (suc i) r h = omega (arith, sum_pos xs i r h)

-- A list with a member is not empty, so no commit is under way while an operation writes.
set-nil : (xs : List ℕ) (i r v : ℕ) → get_elem? xs i ≡ some r → xs ≡ [] → set xs i v ≡ []
set-nil [] i r v h e = refl
set-nil (x ∷ xs) i r v h e = absurd (cc)

length_zero : (xs : List ℕ) → length xs ≡ 0 → xs ≡ []
length_zero [] h = refl
length_zero (x ∷ xs) h = absurd (omega arith)

lh-commit : (l : Log) (s : Store) → length (commit l s).0.lh ≡ 0
unfolding commit
lh-commit l s = ground arith

begin-IsReserved :
    (y : Sys) (l : Log)
    → IsReserved y
    → begin_op y.log ≡ (l, true)
    → IsReserved (record y { log = l; left = max_op_blocks ∷ y.left })
unfolding begin_op
begin-IsReserved y l v e = ground (arith, sum-le y.left)

sleep-IsReserved :
    (y : Sys) (l : Log)
    → IsReserved y
    → begin_op y.log ≡ (l, false)
    → IsReserved (record y { log = l })
unfolding begin_op
sleep-IsReserved y l v e = ground arith

write-IsReserved :
    (y : Sys) (i r b : ℕ) (v : Block) (l : Log) (s : Store)
    → IsReserved y
    → get_elem? y.left i ≡ some (suc r)
    → log_write y.log y.store b v ≡ ok (l, s)
    → IsReserved (record y {
      log = l;
      store = s;
      left = set y.left i (if elem b y.log.lh then suc r else r);
    })
unfolding log_write
write-IsReserved y i r b v l s inv h e =
    let u : ℕ = if elem b y.log.lh then suc r else r in
    ground (
      arith,
      inv.quiet,
      sum-set y.left i (suc r) u h,
      All-set y.left i (suc r) u h,
      set-nil y.left i (suc r) u h,
      sum_pos y.left i r h,
      length-append y.log.lh (b ∷ []),
    )

end-IsReserved :
    (y : Sys) (l : Log) (do_commit : Bool) (xs ys : List ℕ) (r : ℕ)
    → IsReserved y
    → y.left ≡ xs ++ r ∷ ys
    → end_op_count y.log ≡ ok (l, do_commit)
    → IsReserved (record y { log = l; left = xs ++ ys })
unfolding end_op_count
end-IsReserved y l do_commit xs ys r v h e =
    ground (arith, sum-remove xs ys r, All-remove xs ys r, not_nil, length_zero (xs ++ ys))
  where
    not_nil : y.left ≢ []
    not_nil e' = absurd (omega (arith, ap length (sym e' ∙ h), sum-remove xs ys r))

finish-IsReserved :
    (y : Sys) (l : Log) (s : Store)
    → IsReserved y
    → y.log.committing ≡ true
    → end_op_commit y.log y.store ≡ (l, s)
    → IsReserved (record y { log = l; store = s })
unfolding end_op_commit commit
finish-IsReserved y l s v h e = ground arith

Step-IsReserved : {y z : Sys} → Step y z → IsReserved y → IsReserved z
Step-IsReserved {y} (begin l e) v = begin-IsReserved y l v e
Step-IsReserved {y} (sleep l e) v = sleep-IsReserved y l v e
Step-IsReserved {y} (write i r b c l s h e) v = write-IsReserved y i r b c l s v h e
Step-IsReserved {y} (end l d xs ys r h e) v = end-IsReserved y l d xs ys r v h e
Step-IsReserved {y} (finish l s h e) v = finish-IsReserved y l s v h e

Step-size : {y z : Sys} → Step y z → z.log.size ≡ y.log.size
unfolding begin_op log_write end_op_count end_op_commit commit
Step-size (begin l e) = ground arith
Step-size (sleep l e) = ground arith
Step-size (write i r b c l s h e) = ground arith
Step-size (end l d xs ys r h e) = ground arith
Step-size (finish l s h e) = ground arith

-- After boot and recovery: an empty log, and no operation in progress.
abbrev pub booted : ℕ → ℕ → Store → Sys
booted start nlog s = record { log = fresh start nlog; store = s; left = [] }

booted-IsReserved : (start nlog : ℕ) (s : Store) → IsReserved (booted start nlog s)
booted-IsReserved start nlog s = ground arith

pub Reach-IsReserved :
    (start nlog : ℕ) (s : Store) {y : Sys} → Reach (booted start nlog s) y → IsReserved y
Reach-IsReserved start nlog s here = booted-IsReserved start nlog s
Reach-IsReserved start nlog s (next r st) = Step-IsReserved st (Reach-IsReserved start nlog s r)

Reach-size :
    (start nlog : ℕ) (s : Store) {y : Sys} → Reach (booted start nlog s) y → y.log.size ≡ nlog
Reach-size start nlog s here = refl
Reach-size start nlog s (next r st) = Step-size st ∙ Reach-size start nlog s r

-- In a log of more than LOGSIZE blocks, in every interleaving of operations that write at most
-- MAXOPBLOCKS new blocks each, `log_write` does not panic for an operation that has blocks left to
-- write.
pub write_no_panic :
    (start nlog : ℕ) (s : Store) {y : Sys} (i r b : ℕ) (v : Block)
    → log_size < nlog
    → Reach (booted start nlog s) y
    → get_elem? y.left i ≡ some (suc r)
    → log_write y.log y.store b v ≢ panic
unfolding log_write
write_no_panic start nlog s {y} i r b w big reach h =
    let v = Reach-IsReserved start nlog s reach in
    let sz = Reach-size start nlog s reach in
    ground (arith, sum_pos y.left i r h, pos y.left i r h, v.few, v.counted, v.room)

-- In every interleaving of operations that write at most MAXOPBLOCKS new blocks each, `end_op` does
-- not panic while an operation is in progress.
pub end_no_panic :
    (start nlog : ℕ) (s : Store) {y : Sys}
    → Reach (booted start nlog s) y
    → y.left ≢ []
    → end_op_count y.log ≢ panic
unfolding end_op_count
end_no_panic start nlog s reach ne =
    let v = Reach-IsReserved start nlog s reach in ground (arith, v.quiet, ne)

-- In every interleaving of operations, if a process sleeps in `begin_op`, then a commit is under
-- way, or the reservations leave no room for one more operation; so each `end_op` that makes room
-- has woken the sleepers.
pub no_lost_wakeup :
    (start nlog : ℕ) (s : Store) {y : Sys}
    → Reach (booted start nlog s) y
    → y.log.waiting ≢ 0
    → (y.log.committing ≡ true) ⊎ (log_size < length y.log.lh + (length y.left + 1) * max_op_blocks)
no_lost_wakeup start nlog s reach h = ground (arith, Reach-IsReserved start nlog s reach)
