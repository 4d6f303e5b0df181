-- ===== src/Sysfile/Trip.antt =====
-- `sys_close` of sysfile.c takes back what `sys_dup` did.
use chameleon_os.Base.{
  ℕ, zero, suc, ◌+◌, ◌<◌, ◌≡◌, refl, sym, ◌∙◌, ap, subst, inl, inr, false, ◌||◌, Option, none, some,
  arith, leb, Option-cases, some-injective, update, update_self, update_twice, update_back,
}
use chameleon_os.Base.Machine.{ok, Run-cases}
use chameleon_os.File.{Ftable, filedup}
use chameleon_os.File.Dup.{fileclose-filedup}
use chameleon_os.Syscall.{User, argint, negative_int}
use chameleon_os.Fs.Lock.{done, done-injective, call}
use chameleon_os.Sysfile.{Task, free_fd, fdalloc, release, close_file, sys_dup, sys_close}
use chameleon_os.Sysfile.Args.{nofile, argfd}

free_fd-some :
    (ofile : ℕ → Option ℕ) (fd n r : ℕ)
    → free_fd ofile fd n ≡ some r
    → (ofile r ≡ none) × (r < fd + n)
unfolding free_fd
free_fd-some ofile fd zero r e = cc
free_fd-some ofile fd (suc n) r e = elim (Option-cases (ofile fd)) [
  | inl q ↦
      let here : fd ≡ r = some-injective (rw (free_fd, q) at e) in
      (sym (ap ofile here) ∙ q, omega (arith, here))
  | inr (f, q) ↦
      let (z, lt) = free_fd-some ofile (fd + 1) n r (rw (free_fd, q) at e) in (z, omega (arith, lt))
]

-- What a `dup` that gives a descriptor did.
pub record Dupped (t t1 : Task) (fd : ℕ) : Type 0 where
  pub f : ℕ
  pub files : Ftable
  pub free : t.ofile fd ≡ none
  pub small : fd < nofile
  pub counted : filedup t.files f ≡ ok files
  pub after : t1 ≡ record t { ofile = update t.ofile fd (some f); files = files }

dup-Dupped : (t t1 : Task) (fd : ℕ) → sys_dup t ≡ done (t1, some fd) → Dupped t t1 fd
unfolding sys_dup fdalloc
dup-Dupped t t1 fd e = elim (Option-cases (argfd t.user t.ofile 0)) [
  | inl q ↦ absurd (cc (rw (sys_dup, q) at e))
  | inr ((fd0, f), q) ↦ elim (Option-cases (free_fd t.ofile 0 nofile)) [
    | inl z ↦ absurd (cc (rw (sys_dup, q, fdalloc, z) at e))
    | inr (r, z) ↦ elim (Run-cases (filedup t.files f)) [
      | inl p ↦ absurd (cc (rw (sys_dup, q, fdalloc, z, call, p) at e))
      | inr (files, p) ↦
          let end = done-injective (rw (sys_dup, q, fdalloc, z, call, p) at e) in
          let same : r ≡ fd = some-injective (ap (λ (x : Task × Option ℕ). x.1) end) in
          let (free, small) = free_fd-some t.ofile 0 nofile r z in
          record {
            f = f;
            files = files;
            free = subst (λ d. t.ofile d ≡ none) same free;
            small = omega (arith, same, small);
            counted = p;
            after =
                sym (ap (λ (x : Task × Option ℕ). x.0) end)
                ∙ ap (λ d. record t { ofile = update t.ofile d (some f); files = files }) same;
          }
    ]
  ]
]

-- A `dup` that gives a descriptor, and then a `close` of that descriptor, which the process may call with
-- any memory and stack: `close` returns 0, and the open files of the process, the table of files with
-- its reference counts and the file system are as they were before.
pub close-dup :
    (t t1 : Task) (fd : ℕ) (u : User)
    → sys_dup t ≡ done (t1, some fd)
    → argint u 0 ≡ some fd
    → sys_close (record t1 { user = u }) ≡ done (record t { user = u }, some 0)
unfolding sys_close close_file release argfd
close-dup t t1 fd u e a =
    let d = dup-Dupped t t1 fd e in
    let ofile = update t.ofile fd (some d.f) in
    let test : (negative_int fd || leb nofile fd) ≡ false = ground (arith, d.small) in
    let found : argfd u ofile 0 ≡ some (fd, d.f) =
      rw (argfd, a, test, update_self t.ofile fd (some d.f)) refl in
    let closes = fileclose-filedup t.files d.files d.f d.counted in
    let back : update ofile fd none ≡ t.ofile =
      update_twice t.ofile fd (some d.f) none ∙ update_back t.ofile fd none (sym d.free) in
    ap (λ (t1 : Task). sys_close (record t1 { user = u })) d.after
    ∙ rw (sys_close, found, close_file, call, closes)
        (ap (λ o. done (record t { user = u; ofile = o }, some 0)) back)
