-- ===== src/Store.antt =====
-- What bio.c and ide.c give to the layers above them, as one abstract state: the disk, the blocks
-- that B_DIRTY pins in the cache, and how many more disk writes the machine lives through.
-- `Bio.Refine` says which store a buffer cache of bio.c stands for.
use chameleon_os.Base.{ℕ, ◌-◌, Option, none, some, ◌==◌, if◌then◌else◌, update}

-- The 32-bit words of a block, by index. A block is 128 words; no code here reads past them.
abbrev pub Block : Type 0
Block = ℕ → ℕ

pub record Store : Type 0 where
  pub disk : ℕ → Block
  -- The contents of a buffer that `log_write` marked B_DIRTY and no `bwrite` has written since.
  pub pinned : ℕ → Option Block
  -- A write at power 0 does not reach the disk: the machine has crashed.
  pub power : ℕ

-- What a read through the cache sees.
abbrev pub pick : Option Block → Block → Block
pick none old = old
pick (some new) old = new

abbrev pub bread : Store → ℕ → Block
bread s b = pick (s.pinned b) (s.disk b)

-- Write-through: the buffer is clean afterwards.
abbrev pub bwrite : Store → ℕ → Block → Store
bwrite s b v = record s {
  disk = if s.power == 0 then s.disk else update s.disk b v;
  pinned = update s.pinned b none;
  power = s.power - 1;
}

-- A buffer that was changed and marked B_DIRTY stays in the cache.
abbrev pub pin : Store → ℕ → Block → Store
pin s b v = record s { pinned = update s.pinned b (some v) }

-- After a crash the cache is empty, and the machine runs for `power` more disk writes.
abbrev pub reboot : Store → ℕ → Store
reboot s k = record { disk = s.disk; pinned = λ _. none; power = k }
