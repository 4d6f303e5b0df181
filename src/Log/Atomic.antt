-- ===== src/Log/Atomic.antt =====
-- Crash atomicity of log.c: the disk after a crash at any disk write of `commit` or of recovery
-- stands for the contents before the transaction, or for those after it.
use chameleon_os.Base.{
  ℕ, ◌+◌, ◌≤◌, ◌<◌, ◌≡◌, ◌∙◌, none, List, [], arith, if◌then◌else◌, length, elem, update, All,
  lt→ltb,
}
use native.Mathlib.Decide.{dec_lt}
use chameleon_os.Store.{Block, Store, bread, bwrite}
use chameleon_os.Log.{
  Log, log_size, negative, install_from, install_trans, write_log, header_blocks, put_blocks,
  read_head, write_head, recover_from_log, commit,
}
use chameleon_os.Log.Recovery.{
  Outside, SlotsHold, SlotsHold-same, installed-SlotsHold, install_from_off, install_from-power,
  install_from-other, install_from-installed, put_blocks-low, header_blocks-put_blocks,
  elem-Outside,
}

-- The header on disk `d` lists the blocks `bs`, and the slots hold their contents `f`.
pub record Committed (start n : ℕ) (d : ℕ → Block) (bs : List ℕ) (f : ℕ → Block) : Type 0 where
  pub count : d start 0 ≡ length bs
  pub blocks : header_blocks (d start) 1 (length bs) ≡ bs
  pub slots : SlotsHold start 0 bs f d
  pub fits : length bs ≤ n
  pub small : length bs ≤ log_size
  pub outside : All (Outside start n) bs

-- The contents that recovery gives block `x`.
abbrev pub logical : List ℕ → (ℕ → Block) → (ℕ → Block) → ℕ → Block
logical bs f d x = if elem x bs then f x else d x

-- Outside the log, the disk `d` stands for the contents `c`: recovery will produce them.
pub record StandsFor (start n : ℕ) (d c : ℕ → Block) : Type 0 where
  pub bs : List ℕ
  pub f : ℕ → Block
  pub committed : Committed start n d bs f
  pub same : (x : ℕ) → Outside start n x → logical bs f d x ≡ c x

-- Writing the header empties the log or commits the blocks, if the write reaches the disk.
unfoldable pub header_of : Block → List ℕ → Block
header_of hb bs = put_blocks (update hb 0 (length bs)) 1 bs

header_of_lem :
    (hb : Block) (bs : List ℕ)
    → (header_of hb bs 0 ≡ length bs) × (header_blocks (header_of hb bs) 1 (length bs) ≡ bs)
unfolding header_of
header_of_lem hb bs = (
  ground (arith, put_blocks-low (update hb 0 (length bs)) 1 0 bs),
  header_blocks-put_blocks _ 1 bs,
)

pub bwrite_on :
    (s : Store) (b : ℕ) (v : Block) → 0 < s.power → (bwrite s b v).disk ≡ update s.disk b v
bwrite_on s b v h = ground arith

pub bwrite_off : (s : Store) (b : ℕ) (v : Block) → s.power ≡ 0 → (bwrite s b v).disk ≡ s.disk
bwrite_off s b v h = ground arith

-- No block of the log region is pinned.
abbrev pub LogUnpinned : ℕ → ℕ → Store → Type 0
LogUnpinned start n s = (x : ℕ) → start ≤ x → x ≤ start + n → s.pinned x ≡ none

-- The end of a commit and of recovery: copy the slots, then write an empty header.
abbrev pub finish : ℕ → List ℕ → Store → Store
finish start bs s =
    let s' = install_from start 0 bs s in bwrite s' start (header_of (bread s' start) [])

pub finish_dead :
    (start : ℕ) (bs : List ℕ) (s : Store) → s.power ≡ 0 → (finish start bs s).disk ≡ s.disk
finish_dead start bs s off =
    bwrite_off (install_from start 0 bs s) start _ (omega (arith, install_from-power start 0 bs s))
    ∙ install_from_off start 0 bs s off

pub StandsFor-ext :
    (start n : ℕ) (d c c' : ℕ → Block)
    → ((x : ℕ) → Outside start n x → c x ≡ c' x)
    → StandsFor start n d c
    → StandsFor start n d c'
StandsFor-ext start n d c c' e st = record {
  bs = st.bs;
  f = st.f;
  committed = st.committed;
  same = λ x h. st.same x h ∙ e x h;
}

module _ (start n : ℕ) where
  -- A header written over slots that hold the blocks commits them.
  pub Committed-header :
      (bs : List ℕ) (f : ℕ → Block) (s : Store) (hb : Block)
      → SlotsHold start 0 bs f s.disk
      → length bs ≤ n
      → length bs ≤ log_size
      → All (Outside start n) bs
      → 0 < s.power
      → Committed start n (bwrite s start (header_of hb bs)).disk bs f
  Committed-header bs f s hb held fit small out on = rw (bwrite_on s start _ on) (record {
    count = ground (arith, header_of_lem hb bs);
    blocks = ground (arith, header_of_lem hb bs);
    slots = SlotsHold-same start n 0 bs f s.disk _ (omega arith) (λ j p h. ground arith) held;
    fits = fit;
    small = small;
    outside = out;
  })

  -- Copying the slots to their blocks, as far as the power goes, keeps the log.
  install_keeps :
      (bs : List ℕ) (f : ℕ → Block) (s : Store)
      → Committed start n s.disk bs f
      → Committed start n (install_from start 0 bs s).disk bs f
  install_keeps bs f s c = record {
    count = ground (arith, header_same, c.count);
    blocks = rw header_same c.blocks;
    slots =
        SlotsHold-same start n 0 bs f s.disk _ (omega arith)
          (λ j p h.
            (install_from-other start 0 (start + j) bs s
              (elem-Outside start n (start + j) bs c.outside (omega arith) (omega arith))).0)
          c.slots;
    fits = c.fits;
    small = c.small;
    outside = c.outside;
  }
    where
      header_same : (install_from start 0 bs s).disk start ≡ s.disk start
      header_same =
          (install_from-other start 0 start bs s
            (elem-Outside start n start bs c.outside (omega arith) (omega arith))).0

  install-logical :
      (x : ℕ) (bs : List ℕ) (f : ℕ → Block) (s : Store)
      → logical bs f (install_from start 0 bs s).disk x ≡ logical bs f s.disk x
  install-logical x bs f s = ground (arith, install_from-other start 0 x bs s)

  -- With power enough, every block is copied.
  install_all :
      (x : ℕ) (bs : List ℕ) (f : ℕ → Block) (s : Store)
      → Committed start n s.disk bs f
      → LogUnpinned start n s
      → length bs ≤ s.power
      → (install_from start 0 bs s).disk x ≡ logical bs f s.disk x
  install_all x bs f s c free on =
      install_from-installed start n 0 x bs s.disk s c.outside (omega arith) on
        (λ j h. rw (free (start + j) (omega arith) (omega arith)))
      ∙ installed-SlotsHold start 0 x bs f s.disk (s.disk x) c.slots

  finish_off :
      (bs : List ℕ) (f : ℕ → Block) (s : Store)
      → Committed start n s.disk bs f
      → s.power ≤ length bs
      → StandsFor start n (finish start bs s).disk (logical bs f s.disk)
  finish_off bs f s c off =
      rw
        (bwrite_off (install_from start 0 bs s) start _
          (omega (arith, install_from-power start 0 bs s)))
        (record {
          bs = bs;
          f = f;
          committed = install_keeps bs f s c;
          same = λ x h. install-logical x bs f s;
        })

  pub finish_on :
      (bs : List ℕ) (f : ℕ → Block) (s : Store)
      → Committed start n s.disk bs f
      → LogUnpinned start n s
      → length bs < s.power
      → Committed start n (finish start bs s).disk [] f
        × ((x : ℕ) → Outside start n x → (finish start bs s).disk x ≡ logical bs f s.disk x)
  finish_on bs f s c free on = (
    Committed-header [] f (install_from start 0 bs s) _ tt (omega arith) (omega arith) tt left,
    λ x h.
        rw (bwrite_on (install_from start 0 bs s) start _ left)
          (ground (arith, install_all x bs f s c free)),
  )
    where
      left : 0 < (install_from start 0 bs s).power
      left = omega (arith, install_from-power start 0 bs s)

  pub finish-StandsFor :
      (bs : List ℕ) (f : ℕ → Block) (s : Store)
      → Committed start n s.disk bs f
      → LogUnpinned start n s
      → StandsFor start n (finish start bs s).disk (logical bs f s.disk)
  finish-StandsFor bs f s c free = elim (dec_lt (length bs) s.power) [
    | yes p ↦
        let (c', e) = finish_on bs f s c free p in
        record { bs = []; f = f; committed = c'; same = e }
    | no p ↦ finish_off bs f s c (omega arith)
  ]

-- Recovery reads the committed list, copies its blocks and empties the log.
module _ (l : Log) (n : ℕ) (bs : List ℕ) (f : ℕ → Block) (s : Store)
    (c : Committed l.start n s.disk bs f) (free : s.pinned l.start ≡ none) where
  read_head_lem : read_head l s ≡ record l { lh = bs }
  unfolding read_head
  read_head_lem = rw (free, c.count, not_negative, c.blocks)
    where
      not_negative : (if negative (length bs) then 0 else length bs) ≡ length bs
      not_negative = ground (arith, c.small)

  pub recover-finish : recover_from_log l s ≡ (record l { lh = [] }, finish l.start bs s)
  unfolding recover_from_log install_trans write_head header_of
  recover-finish = rw read_head_lem

-- What `commit` does after its copy to the log is the end that recovery has too.
pub commit-finish :
    (l : Log) (s : Store)
    → 0 < length l.lh
    → commit l s ≡ (record l { lh = [] }, finish l.start l.lh (write_head l (write_log l s)))
unfolding commit install_trans write_head header_of
commit-finish l s h = rw (lt→ltb _ _ h)
