-- ===== src/Fs/Cache/Unique.antt =====
-- `iget` of fs.c: an inode is in the cache once.
use chameleon_os.Base.{
  ℕ, zero, suc, ◌+◌, ◌≤◌, ◌<◌, ◌≡◌, refl, sym, ◌∙◌, subst, inl, inr, Bool, true, false, none, some,
  arith, ◌==◌, Bool-cases, Option-cases, some-injective, ==_refl, update,
}
use chameleon_os.Base.Machine.{ok, ok-injective, uint_add}
use chameleon_os.Fs.Disk.{Fs, Inode}
use chameleon_os.Fs.Cache.{ninode, is_referenced, find_inode, is_cached, is_unreferenced, iget}

find_inode-some :
    (test : Inode → Bool) (f : ℕ → Inode) (i n k : ℕ)
    → find_inode test f i n ≡ some k
    → (test (f k) ≡ true) × (k < i + n)
unfolding find_inode
find_inode-some test f i zero k e = absurd (cc)
find_inode-some test f i (suc n) k e = elim (Bool-cases (test (f i))) [
  | inl q ↦
      let p : i ≡ k = some-injective (rw q at e) in
      (subst (λ j. test (f j) ≡ true) p q, omega (arith, p))
  | inr q ↦ let (t, lt) = find_inode-some test f (i + 1) n k (rw q at e) in (t, omega (arith, lt))
]

find_inode-none :
    (test : Inode → Bool) (f : ℕ → Inode) (i n k : ℕ)
    → find_inode test f i n ≡ none
    → i ≤ k
    → k < i + n
    → test (f k) ≡ false
unfolding find_inode
find_inode-none test f i zero k e lo hi = absurd (omega (arith, lo, hi))
find_inode-none test f i (suc n) k e lo hi = elim (Bool-cases (test (f i))) [
  | inl q ↦ absurd (cc (rw q at e))
  | inr q ↦ elim (Bool-cases (i == k)) [
    | inl q' ↦ let p : i ≡ k = ground (arith, q') in subst (λ j. test (f j) ≡ false) p q
    | inr q' ↦
        find_inode-none test f (i + 1) n k (rw q at e) (ground (arith, q', lo)) (omega (arith, hi))
  ]
]

-- No inode stands in two entries that are in use.
pub record IsUnique (inodes : ℕ → Inode) : Type 0 where
  pub once :
      (i j : ℕ)
      → i < ninode
      → j < ninode
      → is_referenced (inodes i) ≡ true
      → is_referenced (inodes j) ≡ true
      → (inodes i).dev ≡ (inodes j).dev
      → (inodes i).inum ≡ (inodes j).inum
      → i ≡ j

IsUnique-update :
    (inodes : ℕ → Inode) (k : ℕ) (new : Inode)
    → IsUnique inodes
    → ((j : ℕ)
        → j < ninode
        → is_referenced (inodes j) ≡ true
        → (inodes j).dev ≡ new.dev
        → (inodes j).inum ≡ new.inum
        → j ≡ k)
    → IsUnique (update inodes k new)
IsUnique-update inodes k new u alone = record {
  once = λ i j hi hj ri rj d n. elim (Bool-cases (k == i)) [
    | inl q ↦
        let e : k ≡ i = ground (arith, q) in
        elim (Bool-cases (k == j)) [
          | inl q' ↦ ground (arith, q, q')
          | inr q' ↦
              sym e ∙ sym (alone j hj (rw q' at rj) (sym (rw (q, q') at d)) (sym (rw (q, q') at n)))
        ]
    | inr q ↦ elim (Bool-cases (k == j)) [
      | inl q' ↦ alone i hi (rw q at ri) (rw (q, q') at d) (rw (q, q') at n) ∙ ground (arith, q')
      | inr q' ↦ u.once i j hi hj (rw q at ri) (rw q' at rj) (rw (q, q') at d) (rw (q, q') at n)
    ]
  ];
}

Found : Fs → ℕ → ℕ → Fs × ℕ → Type 0
Found fs dev inum (fs', ip) =
    (ip < ninode)
    × ((fs'.inode ip).dev ≡ dev)
    × ((fs'.inode ip).inum ≡ inum)
    × ((fs'.inode ip).ref ≡ uint_add (fs.inode ip).ref 1)
    × IsUnique fs'.inode

-- `iget` that does not panic gives the entry of inode `inum` on device `dev`, with one reference
-- more, an `int` that wraps around, and keeps every inode in at most one entry in use.
pub iget-IsUnique :
    (fs fs' : Fs) (dev inum ip : ℕ)
    → IsUnique fs.inode
    → iget fs dev inum ≡ ok (fs', ip)
    → (ip < ninode)
      × ((fs'.inode ip).dev ≡ dev)
      × ((fs'.inode ip).inum ≡ inum)
      × ((fs'.inode ip).ref ≡ uint_add (fs.inode ip).ref 1)
      × IsUnique fs'.inode
unfolding iget Found
iget-IsUnique fs fs' dev inum ip u e =
    elim (Option-cases (find_inode (is_cached dev inum) fs.inode 0 ninode)) [
      | inr (k, p) ↦
          let (t, lt) = find_inode-some (is_cached dev inum) fs.inode 0 ninode k p in
          let i = record (fs.inode k) { ref = uint_add (fs.inode k).ref 1 } in
          subst (Found fs dev inum) (ok-injective (rw (iget, p) at e)) (
            lt,
            rw (==_refl k) (ground (arith, t)),
            rw (==_refl k) (ground (arith, t)),
            rw (==_refl k) refl,
            IsUnique-update fs.inode k i u (λ j h r d n. u.once j k h lt r (ground (arith, t)) d n),
          )
      | inl p ↦ elim (Option-cases (find_inode is_unreferenced fs.inode 0 ninode)) [
        | inr (k, p') ↦
            let (t, lt) = find_inode-some is_unreferenced fs.inode 0 ninode k p' in
            let i = record (fs.inode k) { dev = dev; inum = inum; ref = 1; valid = false } in
            subst (Found fs dev inum) (ok-injective (rw (iget, p, p') at e)) (
              lt,
              rw (==_refl k) refl,
              rw (==_refl k) refl,
              rw (==_refl k) (ground (arith, t)),
              IsUnique-update fs.inode k i u (λ j h r d n.
                  let miss =
                    find_inode-none (is_cached dev inum) fs.inode 0 ninode j p (omega arith) h in
                  absurd (ground (arith, miss, r, d, n))),
            )
        | inl p' ↦ absurd (cc (rw (iget, p, p') at e))
      ]
    ]
