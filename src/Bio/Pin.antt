-- ===== src/Bio/Pin.antt =====
-- B_DIRTY, by which log.c keeps a buffer in the cache, against the abstract store.
use chameleon_os.Base.{
  ℕ, ◌≡◌, fun_ext, ◌∙◌, inl, inr, ap, true, some, arith, ◌==◌, elem, update, update_self,
  Bool-cases,
}
use chameleon_os.Store.{Block, Store}
use chameleon_os.Store
use chameleon_os.Bio.{mark_dirty, Buf, Cache, set_buf, is_for}
use chameleon_os.Bio.Refine.{IsOk, pinned, pinned-set_buf, abs, pinned_dirty}
use chameleon_os.Bio.Keeps.{set_buf-IsOk}

pub mark_dirty-IsOk :
    (c : Cache) (x b : ℕ) (v : Block)
    → IsOk c
    → elem b c.order ≡ true
    → is_for 1 x (c.buf b) ≡ true
    → (c.buf b).valid ≡ true
    → IsOk (set_buf c b (mark_dirty (record (c.buf b) { content = v })))
mark_dirty-IsOk c x b v o e f u =
    set_buf-IsOk c b (mark_dirty (record (c.buf b) { content = v })) o
      (λ z a e' f' g. o.unique z a b e' e f' g) (λ z g v' d h. absurd (cc)) (λ d. u)

-- The holder of the valid buffer of a block gives it new contents and marks it B_DIRTY, as
-- `log_write` does: the invariant holds after it, and the abstract store is the one in which the
-- contents are pinned for that block.
pub mark_dirty_lem :
    (c : Cache) (x b : ℕ) (v : Block)
    → IsOk c
    → elem b c.order ≡ true
    → is_for 1 x (c.buf b) ≡ true
    → (c.buf b).valid ≡ true
    → IsOk (set_buf c b (mark_dirty (record (c.buf b) { content = v })))
      × (abs (set_buf c b (mark_dirty (record (c.buf b) { content = v }))) ≡ Store.pin (abs c) x v)
unfolding pinned
mark_dirty_lem c x b v o e f u =
    let y = mark_dirty (record (c.buf b) { content = v }) in
    let o' = mark_dirty-IsOk c x b v o e f u in
    let same : (z : ℕ) → pinned (set_buf c b y) z ≡ update (pinned c) x (some v) z = λ z.
      elim (Bool-cases (x == z)) [
        | inl q ↦ rw q (
            pinned_dirty (set_buf c b y) z b o' e (ground (arith, f, q)) (ground arith)
            ∙ ap some (ap (λ (y : Buf). y.content) (update_self c.buf b y)))
        | inr q ↦
            rw q (
              pinned-set_buf c b y z (ground (arith, f, q)) (λ d. absurd (ground (arith, f, q, d))))
      ] in
    (o', ap (λ p. record { disk = c.disk; pinned = p; power = c.power }) (fun_ext same))
