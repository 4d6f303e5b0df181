-- ===== src/Log/Crash.antt =====
-- Crashes in `commit` and in `recover_from_log` of log.c: at any disk write, and again while
-- recovering.
use native.Mathlib.Decide.{dec_lt}
use chameleon_os.Base.{
  ℕ, ◌+◌, ◌-◌, ◌≤◌, ◌<◌, ◌≡◌, refl, ◌∙◌, ◌⊎◌, none, List, [], ◌∷◌, arith, ltb, if◌then◌else◌,
  lt→ltb, not-lt→ltb, length, elem-length_zero, All,
}
use chameleon_os.Store.{Block, Store, bread, bwrite}
use chameleon_os.Log.{Log, log_size, write_log, write_head, initlog, fresh, commit, header_blocks}
use chameleon_os.Log.Recovery.{
  Outside, write_log_from-power, write_log_from-other, write_log_from-SlotsHold,
  write_log_from-unpinned,
}
use chameleon_os.Log.Atomic.{
  Committed, StandsFor, LogUnpinned, logical, header_of, bwrite_off, finish-StandsFor, finish_on,
  finish_dead, StandsFor-ext, bwrite_on, Committed-header, recover-finish, commit-finish,
}

-- The state in which `end_op` commits: the log on disk is empty, its blocks are not pinned, and the
-- logged blocks lie outside it and fit.
pub record IsReady (l : Log) (s : Store) : Type 0 where
  pub clean : s.disk l.start 0 ≡ 0
  pub unpinned : LogUnpinned l.start (l.size - 1) s
  pub outside : All (Outside l.start (l.size - 1)) l.lh
  pub fits : length l.lh ≤ l.size - 1
  pub small : length l.lh ≤ log_size

-- The disk with every logged block as the cache has it.
abbrev pub new_contents : Log → Store → ℕ → Block
new_contents l s = logical l.lh (bread s) s.disk

Committed-nil :
    (start n : ℕ) (d : ℕ → Block) (f : ℕ → Block) → d start 0 ≡ 0 → Committed start n d [] f
unfolding header_blocks
Committed-nil start n d f e = record {
  count = e;
  blocks = refl;
  slots = tt;
  fits = omega arith;
  small = omega arith;
  outside = tt;
}

All-bread : (s : Store) (bs : List ℕ) → All (λ b. bread s b ≡ bread s b) bs
All-bread s [] = tt
All-bread s (b ∷ bs) = (refl, All-bread s bs)

module _ (l : Log) (s : Store) (r : IsReady l s) where
  abbrev n : ℕ
  n = l.size - 1

  abbrev logged : Store
  logged = write_log l s

  logged-power : logged.power ≡ s.power - length l.lh
  unfolding write_log
  logged-power = write_log_from-power l.start 0 l.lh s

  logged-other :
      (x : ℕ)
      → (x < l.start + 1) ⊎ (l.start + length l.lh < x)
      → (logged.disk x ≡ s.disk x) × (logged.pinned x ≡ s.pinned x)
  unfolding write_log
  logged-other x h = write_log_from-other l.start 0 x l.lh s (omega arith)

  -- Before the header is written, the disk outside the slots is as it was.
  commit_early :
      (x : ℕ)
      → 0 < length l.lh
      → s.power ≤ length l.lh
      → (x < l.start + 1) ⊎ (l.start + length l.lh < x)
      → (commit l s).1.disk x ≡ s.disk x
  unfolding write_head
  commit_early x some_logged off h = rw (commit-finish l s some_logged) (
      rw (finish_dead l.start l.lh (write_head l logged) (omega (arith, logged-power)))
        (rw (bwrite_off logged l.start _ (omega (arith, logged-power))) (logged-other x h).0))

  abbrev headed : Store
  headed = bwrite logged l.start (header_of (bread logged l.start) l.lh)

  headed-Committed : length l.lh < s.power → Committed l.start n headed.disk l.lh (bread s)
  unfolding write_log
  headed-Committed on =
      Committed-header l.start n l.lh (bread s) logged _
        (write_log_from-SlotsHold l.start n 0 l.lh (bread s) s r.outside (omega (arith, r.fits))
          (omega arith) (All-bread s l.lh))
        r.fits r.small r.outside (omega (arith, logged-power))

  logged-unpinned : LogUnpinned l.start n logged
  unfolding write_log
  logged-unpinned x lo hi = write_log_from-unpinned l.start 0 x l.lh s (r.unpinned x lo hi)

  commit_late :
      0 < length l.lh
      → length l.lh < s.power
      → StandsFor l.start n (commit l s).1.disk (new_contents l s)
  unfolding write_head header_of
  commit_late some_logged on = rw (commit-finish l s some_logged) (
      StandsFor-ext l.start n _ _ _ same (
        finish-StandsFor l.start n l.lh (bread s) headed (headed-Committed on)
          (λ x lo hi. ground (arith, logged-unpinned x lo hi))))
    where
      same :
          (x : ℕ) → Outside l.start n x → logical l.lh (bread s) headed.disk x ≡ new_contents l s x
      same x h =
          rw (bwrite_on logged l.start _ (omega (arith, logged-power)))
            (ground (arith, logged-other x, r.fits))

  -- With no block logged, `commit` does nothing.
  commit-nil : length l.lh ≡ 0 → commit l s ≡ (l, s)
  unfolding commit
  commit-nil e = rw e

  nothing :
      length l.lh ≡ 0
      → StandsFor l.start n
          (commit l s).1.disk
          (if ltb (length l.lh) s.power then new_contents l s else s.disk)
  nothing e = rw (commit-nil e) (record {
    bs = [];
    f = bread s;
    committed = Committed-nil l.start n s.disk (bread s) r.clean;
    same = λ x h. ground (arith, elem-length_zero x l.lh e);
  })

  early : 0 < length l.lh → s.power ≤ length l.lh → StandsFor l.start n (commit l s).1.disk s.disk
  early some_logged off = record {
    bs = [];
    f = bread s;
    committed =
        Committed-nil l.start n _ (bread s)
          (rw (commit_early l.start some_logged off (omega arith)) r.clean);
    same = λ x h. commit_early x some_logged off (omega (arith, r.fits));
  }

  -- The disk after a commit that `s.power` disk writes of it reach.
  commit-StandsFor :
      StandsFor l.start n
        (commit l s).1.disk
        (if ltb (length l.lh) s.power then new_contents l s else s.disk)
  commit-StandsFor = elim (dec_lt 0 (length l.lh)) [
    | no p ↦ nothing (omega arith)
    | yes p ↦ elim (dec_lt (length l.lh) s.power) [
      | yes q ↦ rw (lt→ltb _ _ q) (commit_late p q)
      | no q ↦ rw (not-lt→ltb _ _ q) (early p (omega arith))
    ]
  ]

-- A boot from a disk, with `k` more disk writes before the next crash.
abbrev pub recover : ℕ → ℕ → (ℕ → Block) → ℕ → Log × Store
recover start size d k = initlog start size (record { disk = d; pinned = λ _. none; power = k })

module _ (start size n : ℕ) (d c : ℕ → Block) (st : StandsFor start n d c) where
  -- A crash during recovery loses nothing.
  recover-StandsFor : (k : ℕ) → StandsFor start n (recover start size d k).1.disk c
  unfolding initlog
  recover-StandsFor k =
      let s : Store = record { disk = d; pinned = λ _. none; power = k } in
      rw (recover-finish (fresh start size) n st.bs st.f s st.committed refl) (
        StandsFor-ext start n _ _ _ st.same
          (finish-StandsFor start n st.bs st.f s st.committed (λ x lo hi. refl)))

  -- Recovery that is not cut short produces the contents, and leaves the log empty.
  recover_done :
      (k : ℕ)
      → log_size < k
      → let (l, s) = recover start size d k in
        ((x : ℕ) → Outside start n x → s.disk x ≡ c x) × (s.disk start 0 ≡ 0) × (l.lh ≡ [])
  unfolding initlog
  recover_done k big =
      let s : Store = record { disk = d; pinned = λ _. none; power = k } in
      let (empty, e) =
        finish_on start n st.bs st.f s st.committed (λ x lo hi. refl)
          (omega (arith, st.committed.small)) in
      rw (recover-finish (fresh start size) n st.bs st.f s st.committed refl)
        (λ x h. e x h ∙ st.same x h, empty.count, refl)

-- If the machine crashes after any number `k` of the disk writes of a commit, and again after any
-- number `j` of those of the next boot's recovery, and recovery then runs to its end, then every
-- block outside the log has its contents from before the transaction if the header was not written
-- (`k` is at most the number of logged blocks), and its new contents if it was. The log is then
-- empty, on disk and in memory.
pub commit_crash :
    (l : Log) (s : Store) (k j m x : ℕ)
    → IsReady l s
    → log_size < m
    → Outside l.start (l.size - 1) x
    → let d = (commit l (record s { power = k })).1.disk in
      let d' = (recover l.start l.size d j).1.disk in
      let (l', s') = recover l.start l.size d' m in
      (s'.disk x ≡ (if ltb (length l.lh) k then new_contents l s x else s.disk x))
      × (s'.disk l.start 0 ≡ 0)
      × (l'.lh ≡ [])
commit_crash l s k j m x r big off =
    let (same, count, lh) = recover_done l.start l.size n _ _ again m big in (same x off, count, lh)
  where
    n : ℕ
    n = l.size - 1

    s' : Store
    s' = record s { power = k }

    ready : IsReady l s'
    ready = record {
      clean = r.clean;
      unpinned = r.unpinned;
      outside = r.outside;
      fits = r.fits;
      small = r.small;
    }

    st :
        StandsFor l.start n
          (commit l s').1.disk
          (λ x. if ltb (length l.lh) k then new_contents l s x else s.disk x)
    st = StandsFor-ext l.start n _ _ _ (λ x h. ground arith) (commit-StandsFor l s' ready)

    again :
        StandsFor l.start n
          (recover l.start l.size (commit l s').1.disk j).1.disk
          (λ x. if ltb (length l.lh) k then new_contents l s x else s.disk x)
    again = recover-StandsFor l.start l.size n _ _ st j
