-- ===== src/Log/Room.antt =====
-- What a `log_write` leaves, and the room for more of them that `begin_op` has reserved.
use chameleon_os.Base.{
  ℕ, suc, ◌+◌, ◌-◌, ◌≤◌, ◌<◌, ◌^◌, ◌≡◌, arith, if◌then◌else◌, ◌==◌, length, elem, Bool-cases, inl,
  inr, length-append, ◌∷◌, [], ◌++◌, ◌||◌, sym, leb,
}
use chameleon_os.Base.Machine.{ok, ok-injective}
use chameleon_os.Store.{Block, Store, pin}
use chameleon_os.Log.{Log, log_write, log_size, negative}

-- An operation is in progress, and `n` more blocks fit into the log.
pub record HasRoom (n : ℕ) (l : Log) : Type 0 where
  pub header : n + length l.lh ≤ log_size
  pub fits : n + length l.lh ≤ l.size - 1
  pub busy : 0 < l.outstanding
  pub signed : l.outstanding < 2 ^ 31

-- The log after `log_write` of block `b`.
abbrev pub logged : Log → ℕ → Log
logged l b = record l { lh = if elem b l.lh then l.lh else l.lh ++ b ∷ [] }

pub log_write_ok :
    (n : ℕ) (l : Log) (s : Store) (b : ℕ) (v : Block)
    → HasRoom (suc n) l
    → (log_write l s b v ≡ ok (logged l b, pin s b v)) × HasRoom n (logged l b)
unfolding log_write
log_write_ok n l s b v r =
    ground (arith, r.header, r.fits, r.busy, r.signed, length-append l.lh (b ∷ []))

-- If a write does not panic, that is what it does.
pub log_write-inv :
    (l : Log) (s : Store) (b : ℕ) (v : Block) (r : Log × Store)
    → log_write l s b v ≡ ok r
    → r ≡ (logged l b, pin s b v)
unfolding log_write
log_write-inv l s b v r h =
    elim (Bool-cases (leb log_size (length l.lh) || leb (l.size - 1) (length l.lh))) [
      | inl q ↦ absurd (cc (rw (log_write, q) at h))
      | inr q ↦ elim (Bool-cases (negative l.outstanding || (l.outstanding == 0))) [
        | inl q' ↦ absurd (cc (rw (log_write, q, q') at h))
        | inr q' ↦ sym (ok-injective (rw (log_write, q, q') at h))
      ]
    ]
