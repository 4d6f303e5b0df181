-- ===== src/Bio.antt =====
-- bio.c, the buffer cache, over the disk driver of memide.c.
-- `bcache.buf` is the map `buf`, a buffer being its index; the doubly linked list from `head.next` on
-- is the list `order`, most recently used first. A function is run by the process `pid`.
pub mod Scan
pub mod Refine
pub mod Keeps
pub mod Claim
pub mod Read
pub mod Total
pub mod Write
pub mod Release
pub mod Pin
pub mod Init
mod Examples
use chameleon_os.Base.{
  ℕ, zero, suc, ◌+◌, ◌-◌, Bool, true, false, not, ◌&&◌, ◌||◌, Option, none, some, List, [], ◌∷◌,
  ◌++◌, ◌==◌, leb, if◌then◌else◌, update,
}
use chameleon_os.Base.Machine.{Run, ok, panic, ◌>>=◌, uint_add, uint_sub}
use chameleon_os.Store.{Block}

pub record Buf : Type 0 where
  -- B_VALID and B_DIRTY of `flags`
  pub valid : Bool
  pub dirty : Bool
  pub dev : ℕ
  pub blockno : ℕ
  -- the sleep lock: the process that holds it
  pub holder : Option ℕ
  pub refcnt : ℕ
  pub content : Block

pub record Cache : Type 0 where
  pub buf : ℕ → Buf
  pub order : List ℕ
  pub disk : ℕ → Block
  pub disksize : ℕ
  -- how many more disk writes reach the disk before a crash
  pub power : ℕ

abbrev pub nbuf : ℕ
nbuf = 30

abbrev pub set_buf : Cache → ℕ → Buf → Cache
set_buf c b x = record c { buf = update c.buf b x }

abbrev pub holds : ℕ → Buf → Bool
holds pid x = elim x.holder [ none ↦ false | some p ↦ p == pid ]

-- The loop of `binit`, with `n` buffers left from `b` on: each is put at the head of the list, and its
-- sleep lock is open (`initsleeplock`).
pub link_all : Cache → ℕ → ℕ → Cache
link_all c b zero = c
link_all c b (suc n) =
    link_all
      (record c { buf = update c.buf b (record (c.buf b) { holder = none }); order = b ∷ c.order })
      (b + 1) n

pub binit : Cache → Cache
binit c = link_all (record c { order = [] }) 0 nbuf

pub find_buf : (Buf → Bool) → (ℕ → Buf) → List ℕ → Option ℕ
find_buf test buf [] = none
find_buf test buf (b ∷ bs) =
    let rest = find_buf test buf bs in if test (buf b) then some b else rest

-- The list by its `prev` pointers.
pub backwards : List ℕ → List ℕ
backwards [] = []
backwards (b ∷ bs) = backwards bs ++ b ∷ []

abbrev pub is_for : ℕ → ℕ → Buf → Bool
is_for dev blockno x = (x.dev == dev) && (x.blockno == blockno)

abbrev pub is_free : Buf → Bool
is_free x = (x.refcnt == 0) && not x.dirty

-- The part of `bget` under `bcache.lock`; a second scan goes from the least recently used end.
pub claim : Cache → ℕ → ℕ → Run (Cache × ℕ)
claim c dev blockno = elim (find_buf (is_for dev blockno) c.buf c.order) [
  | some b ↦ ok (set_buf c b (record (c.buf b) { refcnt = uint_add (c.buf b).refcnt 1 }), b)
  | none ↦ elim (find_buf is_free c.buf (backwards c.order)) [
    | some b ↦
        let fresh = record (c.buf b) {
          dev = dev;
          blockno = blockno;
          valid = false;
          dirty = false;
          refcnt = 1;
        } in
        ok (set_buf c b fresh, b)
    | none ↦ panic
  ]
]

-- How `bget` and `bread` end: with the locked buffer, or asleep in `acquiresleep` because another
-- process holds it.
pub data Got : Type 0 where
  got : Cache → ℕ → Got
  asleep : Cache → ℕ → Got

pub acquiresleep : Cache → ℕ → ℕ → Got
acquiresleep c pid b = elim (c.buf b).holder [
  | none ↦ got (set_buf c b (record (c.buf b) { holder = some pid })) b
  | some p ↦ asleep c b
]

pub bget : Cache → ℕ → ℕ → ℕ → Run Got
bget c pid dev blockno = do (c', b) ← claim c dev blockno; ok (acquiresleep c' pid b)

-- `iderw` of memide.c.
pub iderw : Cache → ℕ → ℕ → Run Cache
iderw c pid b =
    let x = c.buf b in
    if not (holds pid x)
    then panic
    else if x.valid && not x.dirty
    then panic
    else if not (x.dev == 1)
    then panic
    else if leb c.disksize x.blockno
    then panic
    else if x.dirty
    then ok (record c {
      buf = update c.buf b (record x { dirty = false; valid = true });
      disk = if c.power == 0 then c.disk else update c.disk x.blockno x.content;
      power = c.power - 1;
    })
    else ok (set_buf c b (record x { content = c.disk x.blockno; valid = true }))

pub bread : Cache → ℕ → ℕ → ℕ → Run Got
bread c pid dev blockno = do
  g ← bget c pid dev blockno
  elim g [
    | asleep c' b ↦ ok (asleep c' b)
    | got c' b ↦
        if (c'.buf b).valid then ok (got c' b) else (do c'' ← iderw c' pid b; ok (got c'' b))
  ]

pub bwrite : Cache → ℕ → ℕ → Run Cache
bwrite c pid b =
    if not (holds pid (c.buf b))
    then panic
    else iderw (set_buf c b (record (c.buf b) { dirty = true })) pid b

-- What `log_write` of log.c does to a buffer.
abbrev pub mark_dirty : Buf → Buf
mark_dirty x = record x { dirty = true }

pub remove : ℕ → List ℕ → List ℕ
remove b [] = []
remove b (x ∷ xs) = if x == b then xs else x ∷ remove b xs

pub brelse : Cache → ℕ → ℕ → Run Cache
brelse c pid b =
    let x = c.buf b in
    if not (holds pid x)
    then panic
    else (let c' = set_buf c b (record x { holder = none; refcnt = uint_sub x.refcnt 1 }) in
        ok (if uint_sub x.refcnt 1 == 0 then record c' { order = b ∷ remove b c.order } else c'))
