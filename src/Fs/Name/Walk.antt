-- ===== src/Fs/Name/Walk.antt =====
-- The loop of `namex` of fs.c ends.
use chameleon_os.Base.{
  ℕ, zero, suc, ◌<◌, ◌≡◌, refl, inl, inr, Bool, ◌&&◌, not, Option, none, some, List, arith, ◌==◌,
  Bool-cases, Option-cases, length,
}
use chameleon_os.Path.{skipelem}
use chameleon_os.Path.Elements.{length-skipelem}
use chameleon_os.Fs.Disk.{Fs}
use chameleon_os.Fs.Map.{t_dir}
use chameleon_os.Fs.Lock.{Outcome, done, panicked, asleep, ◌>>=◌, call, ilock, iunlockput}
use chameleon_os.Fs.Dir.{dirlookup}
use chameleon_os.Fs.Name.{is_empty, walk}

>>=-ap :
    {A B : Type 0} (m : Outcome A) {f g : A → Outcome B}
    → ((a : A) → f a ≡ g a)
    → (m >>= f) ≡ (m >>= g)
>>=-ap (done a) h = h a
>>=-ap panicked h = refl
>>=-ap asleep h = refl

Option-ap :
    {A B : Type 0} (o : Option A) (b : B) {f g : A → B}
    → ((a : A) → f a ≡ g a)
    → (elim o [ none ↦ b | some a ↦ f a ]) ≡ (elim o [ none ↦ b | some a ↦ g a ])
Option-ap none b h = refl
Option-ap (some a) b h = h a

-- Whatever the state, the loop of `namex` over `path` needs at most one round more than the path has
-- bytes: with that many rounds and with any larger number `n` it ends the same way.
pub walk_lem :
    (fs : Fs) (pid ip : ℕ) (path : List ℕ) (parent : Bool) (name : List ℕ) (n m : ℕ)
    → length path < n
    → length path < m
    → walk fs pid ip path parent name n ≡ walk fs pid ip path parent name m
unfolding walk
walk_lem fs pid ip path parent name zero m h h' = absurd (omega (arith, h))
walk_lem fs pid ip path parent name (suc n) zero h h' = absurd (omega (arith, h'))
walk_lem fs pid ip path parent name (suc n) (suc m) h h' = elim (Option-cases (skipelem path)) [
  | inl e ↦ rw (walk, e) refl
  | inr ((elem, rest), e) ↦
      let shorter = length-skipelem path e in
      rw (walk, e)
        (>>=-ap (ilock fs pid ip) (λ fs1. elim (Bool-cases (not ((fs1.inode ip).type == t_dir))) [
          | inl q ↦ rw q refl
          | inr q ↦ elim (Bool-cases (parent && is_empty rest)) [
            | inl q' ↦ rw (q, q') refl
            | inr q' ↦
                rw (q, q')
                  (>>=-ap (call (dirlookup fs1 ip elem)) (λ (fs2, found).
                    >>=-ap (iunlockput fs2 pid ip) (λ fs3.
                      Option-ap found (done (fs3, none)) (λ (next, off).
                        walk_lem fs3 pid next rest parent elem n m (omega (arith, shorter, h))
                          (omega (arith, shorter, h'))))))
          ]
        ]))
]
