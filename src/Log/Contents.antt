-- ===== src/Log/Contents.antt =====
-- `log_write` of log.c and the contents that a commit will install.
use chameleon_os.Base.{
  ℕ, ◌-◌, ◌≡◌, List, [], ◌∷◌, ◌++◌, arith, ◌==◌, suc, if◌then◌else◌, length, length-append, elem,
  elem-append, All,
}
use chameleon_os.Base.Machine.{ok}
use chameleon_os.Store.{Block, Store}
use chameleon_os.Log.{Log, log_write}
use chameleon_os.Log.Recovery.{Outside}
use chameleon_os.Log.Crash.{IsReady, new_contents}

All-append :
    (start n b : ℕ) (bs : List ℕ)
    → All (Outside start n) bs
    → Outside start n b
    → All (Outside start n) (bs ++ b ∷ [])
All-append start n b [] h o = (o, tt)
All-append start n b (c ∷ bs) h o = (h.0, All-append start n b bs h.1 o)

-- A `log_write` of a block outside the log that does not panic keeps the state ready to commit. The
-- transaction then installs the new contents in that block, and in every other block what it
-- installed before; the list of blocks grows by one if the block is new to it, and stays otherwise.
pub log_write_lem :
    (l l' : Log) (s s' : Store) (b : ℕ) (v : Block)
    → IsReady l s
    → Outside l.start (l.size - 1) b
    → log_write l s b v ≡ ok (l', s')
    → IsReady l' s'
      × ((x : ℕ) → new_contents l' s' x ≡ (if b == x then v else new_contents l s x))
      × (length l'.lh ≡ (if elem b l.lh then length l.lh else suc (length l.lh)))
unfolding log_write
log_write_lem l l' s s' b v r o e = (
  ground (arith, length-append l.lh (b ∷ []), All-append l.start (l.size - 1) b l.lh r.outside o),
  λ x. ground (arith, elem-append x l.lh (b ∷ [])),
  ground (arith, length-append l.lh (b ∷ [])),
)
