-- ===== src/Proc/Kill.antt =====
-- `kill` of proc.c, and a free entry of the table that it marks.
use native.Mathlib.Decide.{ℕ_discrete}
use chameleon_os.Base.{
  ◌⊎◌, ℕ, zero, suc, ◌+◌, ◌<◌, ◌≡◌, ◌≢◌, refl, inl, inr, Bool, true, false, some, arith, ◌==◌,
  ne→==, sym, update_ne, ◌∙◌, Option-cases,
}
use chameleon_os.Proc.{
  Proc, Kernel, sleeping, nproc, find, is_unused, take_slot, mark_killed, allocproc, kill,
}
use chameleon_os.Proc.Sane.{find-some}

find-ext :
    (test : Proc → Bool) (procs procs' : ℕ → Proc) (i n : ℕ)
    → ((j : ℕ) → test (procs' j) ≡ test (procs j))
    → find test procs' i n ≡ find test procs i n
unfolding find
find-ext test procs procs' i zero h = refl
find-ext test procs procs' i (suc n) h = rw (h i, find-ext test procs procs' (i + 1) n h)

-- `kill` with a pid that some entry has returns 0; it marks the first entry of the table with that
-- pid, which no longer sleeps then, and changes no other entry.
pub kill_lem :
    (k : Kernel) (pid i j : ℕ)
    → find (λ p. p.pid == pid) k.procs 0 nproc ≡ some i
    → ((kill k pid).1 ≡ true)
      × ((k.procs i).pid ≡ pid)
      × (((kill k pid).0.procs i).killed ≡ true)
      × (((kill k pid).0.procs i).state ≢ sleeping)
      × ((j ≡ i) ⊎ ((kill k pid).0.procs j ≡ k.procs j))
unfolding kill mark_killed
kill_lem k pid i j e =
    rw (e, kill)
      (
        refl,
        ground (arith, find-some (λ p. p.pid == pid) k.procs 0 nproc i e),
        ground arith,
        ground arith,
        elim (ℕ_discrete i j) [ yes q ↦ inl (sym q) | no ne ↦ inr (update_ne k.procs i j _ ne) ],
      )

-- `kill` with a pid that no entry of the table has returns -1 and changes nothing.
pub kill_none :
    (k : Kernel) (pid : ℕ) → ((j : ℕ) → j < nproc → (k.procs j).pid ≢ pid) → kill k pid ≡ (k, false)
unfolding kill
kill_none k pid h = elim (Option-cases (find (λ p. p.pid == pid) k.procs 0 nproc)) [
  | inl e ↦ rw (e, kill)
  | inr (i, e) ↦
      let found = find-some (λ p. p.pid == pid) k.procs 0 nproc i e in
      absurd (h i (omega arith) (ground (arith, found)))
]

-- When the first free entry of the table is also the first entry with pid 0, `kill(0)` returns 0 and
-- marks that entry, and the next process, if there is memory for its stack, is created in it and is
-- killed from the start: `allocproc` does not clear the mark.
pub kill_zero_marks_next :
    (k : Kernel) (i stack : ℕ)
    → find is_unused k.procs 0 nproc ≡ some i
    → find (λ p. p.pid == 0) k.procs 0 nproc ≡ some i
    → stack ≢ 0
    → let (k1, result) = kill k 0 in
      let (k2, slot) = allocproc k1 stack in
      (result ≡ true) × (slot ≡ some i) × ((k2.procs i).killed ≡ true)
unfolding kill mark_killed allocproc take_slot
kill_zero_marks_next k i stack u z s =
    let still : find is_unused (mark_killed k i).procs 0 nproc ≡ some i =
      find-ext is_unused k.procs (mark_killed k i).procs 0 nproc (λ j. ground arith) ∙ u in
    rw (z, kill) (rw (still, allocproc) (rw (ne→== stack 0 s) (refl, refl, ground arith)))
