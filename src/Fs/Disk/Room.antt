-- ===== src/Fs/Disk/Room.antt =====
-- What a write of a block does to the state of the file system.
use chameleon_os.Base.{ℕ, suc, ◌≡◌, refl, sym, ◌∙◌, inl, inr, ap, ◌==◌, if◌then◌else◌, Bool-cases}
use chameleon_os.Base.Machine.{ok, Run-cases, ok-injective}
use chameleon_os.Store.{Block, Store, pin}
use chameleon_os.Log.{Log, log_write}
use chameleon_os.Log.Room.{HasRoom, logged, log_write_ok, log_write-inv}
use chameleon_os.Fs.Disk.{Fs, block, put_block}

abbrev pub put : Fs → ℕ → Block → Fs
put fs b v = record fs { log = logged fs.log b; store = pin fs.store b v }

pub put_block_lem :
    (n : ℕ) (fs : Fs) (b : ℕ) (v : Block)
    → HasRoom (suc n) fs.log
    → (put_block fs b v ≡ ok (put fs b v)) × HasRoom n (put fs b v).log
unfolding put_block
put_block_lem n fs b v r =
    let (e, room) = log_write_ok n fs.log fs.store b v r in (rw (put_block, e) refl, room)

pub block-put :
    (fs : Fs) (b : ℕ) (v : Block) (x : ℕ)
    → block (put fs b v) x ≡ (if b == x then v else block fs x)
block-put fs b v x = elim (Bool-cases (b == x)) [ inl q ↦ rw q refl | inr q ↦ rw q refl ]

-- If a write does not panic, that is what it does.
pub put_block-inv : (fs fs' : Fs) (b : ℕ) (v : Block) → put_block fs b v ≡ ok fs' → fs' ≡ put fs b v
unfolding put_block
put_block-inv fs fs' b v h = elim (Run-cases (log_write fs.log fs.store b v)) [
  | inl p ↦ absurd (cc (rw (put_block, p) at h))
  | inr (r, p) ↦
      let e = log_write-inv fs.log fs.store b v r p in
      sym (ok-injective (rw (put_block, p) at h))
      ∙ ap (λ (q : Log × Store). record fs { log = q.0; store = q.1 }) e
]
