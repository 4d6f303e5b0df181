-- ===== src/Log.antt =====
-- log.c: the write-ahead log, over the abstract buffer cache of `Store`.
-- `lh.block[0 .. lh.n)` is the list `lh`, so `lh.n` is its length; `log.dev` is left out, since
-- one device is used. A process that sleeps on `&log` is counted in `waiting`.
pub mod Recovery
pub mod Atomic
pub mod Crash
pub mod Reserve
pub mod Contents
pub mod Room
pub mod Count
mod Examples
use chameleon_os.Base.{
  ℕ, zero, suc, ◌+◌, ◌-◌, ◌*◌, ◌%◌, ◌^◌, Bool, true, false, ◌&&◌, ◌||◌, List, [], ◌∷◌, ◌++◌, ltb,
  leb, ◌==◌, if◌then◌else◌, length, elem, update,
}
use chameleon_os.Base.Machine.{Run, ok, panic, ◌>>=◌, ◌>>◌, uint_add, uint_sub}
use chameleon_os.Store.{Block, Store, bread, bwrite, pin}

abbrev pub max_op_blocks : ℕ
max_op_blocks = 10

abbrev pub log_size : ℕ
log_size = max_op_blocks * 3

pub record Log : Type 0 where
  pub start : ℕ
  pub size : ℕ
  -- an `int`, as its 32-bit pattern
  pub outstanding : ℕ
  pub committing : Bool
  pub lh : List ℕ
  pub waiting : ℕ

-- An `int` in its 32-bit pattern is negative.
abbrev pub negative : ℕ → Bool
negative w = leb (2 ^ 31) w

-- `block[0]`, `block[1]`, … of a header block, `n` of them from word `i`.
pub header_blocks : Block → ℕ → ℕ → List ℕ
header_blocks hb i zero = []
header_blocks hb i (suc n) = hb i ∷ header_blocks hb (i + 1) n

-- Word 0 is `n`. The loop of a negative `n` makes no round.
pub read_head : Log → Store → Log
read_head l s =
    let hb = bread s l.start in
    record l { lh = header_blocks hb 1 (if negative (hb 0) then 0 else hb 0) }

-- `hb->block[i] = log.lh.block[i]` for each block left, the words from `i` on.
pub put_blocks : Block → ℕ → List ℕ → Block
put_blocks hb i [] = hb
put_blocks hb i (b ∷ bs) = put_blocks (update hb i b) (i + 1) bs

pub write_head : Log → Store → Store
write_head l s = bwrite s l.start (put_blocks (update (bread s l.start) 0 (length l.lh)) 1 l.lh)

-- `tail` counts up while the blocks of the list go by.
pub install_from : ℕ → ℕ → List ℕ → Store → Store
install_from start tail [] s = s
install_from start tail (b ∷ bs) s =
    install_from start (tail + 1) bs (bwrite s b (bread s (start + tail + 1)))

pub install_trans : Log → Store → Store
install_trans l s = install_from l.start 0 l.lh s

pub recover_from_log : Log → Store → Log × Store
recover_from_log l s =
    let l1 = read_head l s in
    let s1 = install_trans l1 s in let l2 = record l1 { lh = [] } in (l2, write_head l2 s1)

-- `struct log` is zero at boot. The superblock's `logstart` and `nlog` are arguments here. The size
-- of `struct logheader` is 4 * (1 + LOGSIZE), below BSIZE, so the first test never panics.
abbrev pub fresh : ℕ → ℕ → Log
fresh logstart nlog = record {
  start = logstart;
  size = nlog;
  outstanding = 0;
  committing = false;
  lh = [];
  waiting = 0;
}

pub initlog : ℕ → ℕ → Store → Log × Store
initlog logstart nlog s = recover_from_log (fresh logstart nlog) s

pub write_log_from : ℕ → ℕ → List ℕ → Store → Store
write_log_from start tail [] s = s
write_log_from start tail (b ∷ bs) s =
    write_log_from start (tail + 1) bs (bwrite s (start + tail + 1) (bread s b))

pub write_log : Log → Store → Store
write_log l s = write_log_from l.start 0 l.lh s

pub commit : Log → Store → Log × Store
commit l s =
    if ltb 0 (length l.lh)
    then (let s1 = write_log l s in
        let s2 = write_head l s1 in
        let s3 = install_trans l s2 in let l' = record l { lh = [] } in (l', write_head l' s3))
    else (l, s)

-- One round of the loop of `begin_op`: the operation starts, or the process sleeps on `&log` and
-- will try again when it is woken.
unfoldable pub begin_op : Log → Log × Bool
begin_op l =
    let need = (length l.lh + uint_add l.outstanding 1 * max_op_blocks) % 2 ^ 32 in
    if l.committing || (ltb log_size need && ltb need (2 ^ 31))
    then (record l { waiting = l.waiting + 1 }, false)
    else (record l { outstanding = uint_add l.outstanding 1 }, true)

-- The first half of `end_op`, under `log.lock`. The flag is `do_commit`.
unfoldable pub end_op_count : Log → Run (Log × Bool)
end_op_count l =
    let out = uint_sub l.outstanding 1 in
    if l.committing
    then panic
    else if out == 0
    then ok (record l { outstanding = out; committing = true }, true)
    else ok (record l { outstanding = out; waiting = 0 }, false)

-- The second half, for the operation that commits.
pub end_op_commit : Log → Store → Log × Store
end_op_commit l s = let (l', s') = commit l s in (record l' { committing = false; waiting = 0 }, s')

unfoldable pub end_op : Log → Store → Run (Log × Store)
end_op l s = do
  (l', do_commit) ← end_op_count l
  ok (if do_commit then end_op_commit l' s else (l', s))

-- `data` is what the caller left in the buffer of block `b`.
pub log_write : Log → Store → ℕ → Block → Run (Log × Store)
log_write l s b content =
    if leb log_size (length l.lh) || leb (l.size - 1) (length l.lh)
    then panic
    else if negative l.outstanding || (l.outstanding == 0)
    then panic
    else ok (record l { lh = if elem b l.lh then l.lh else l.lh ++ b ∷ [] }, pin s b content)
