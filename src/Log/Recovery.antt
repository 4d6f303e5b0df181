-- ===== src/Log/Recovery.antt =====
-- What the loops of log.c do to the disk, with any number of disk writes left before a crash, and
-- what recovery makes of a committed log.
use chameleon_os.Base.{
  ℕ, ◌+◌, ◌-◌, ◌≤◌, ◌<◌, ◌≡◌, refl, ◌∙◌, ap, ◌⊎◌, false, none, List, [], ◌∷◌, arith, ◌==◌,
  if◌then◌else◌, length, elem, update, All,
}
use chameleon_os.Store.{Block, Store, bread, bwrite}
use chameleon_os.Log.{install_from, write_log_from, header_blocks, put_blocks}

-- The block lies in the log region of `n` slots, the header included.
abbrev pub InLog : ℕ → ℕ → ℕ → Type 0
InLog start n b = (start ≤ b) × (b ≤ start + n)

-- The block lies outside the log region.
abbrev pub Outside : ℕ → ℕ → ℕ → Type 0
Outside start n b = (b < start) ⊎ (start + n < b)

-- The contents that block `x` has after the slots from `i` on were copied to the blocks `bs`, where
-- it had `old`.
pub installed : ℕ → ℕ → List ℕ → (ℕ → Block) → ℕ → Block → Block
installed start i [] slots x old = old
installed start i (b ∷ bs) slots x old =
    installed start (i + 1) bs slots x (if b == x then slots (start + i + 1) else old)

-- Without power the disk does not change.
pub install_from_off :
    (start i : ℕ) (bs : List ℕ) (s : Store)
    → s.power ≡ 0
    → (install_from start i bs s).disk ≡ s.disk
unfolding install_from
install_from_off start i [] s off = refl
install_from_off start i (b ∷ bs) s off =
    ground (arith, install_from_off start (i + 1) bs (bwrite s b (bread s (start + i + 1))))

pub install_from-power :
    (start i : ℕ) (bs : List ℕ) (s : Store)
    → (install_from start i bs s).power ≡ s.power - length bs
unfolding install_from
install_from-power start i [] s = omega arith
install_from-power start i (b ∷ bs) s =
    omega (arith, install_from-power start (i + 1) bs (bwrite s b (bread s (start + i + 1))))

pub write_log_from-power :
    (start i : ℕ) (bs : List ℕ) (s : Store)
    → (write_log_from start i bs s).power ≡ s.power - length bs
unfolding write_log_from
write_log_from-power start i [] s = omega arith
write_log_from-power start i (b ∷ bs) s =
    omega (arith, write_log_from-power start (i + 1) bs (bwrite s (start + i + 1) (bread s b)))

-- `write_log_from` writes the slots from `i` on and nothing else.
pub write_log_from-other :
    (start i x : ℕ) (bs : List ℕ) (s : Store)
    → (x < start + i + 1) ⊎ (start + i + length bs < x)
    → ((write_log_from start i bs s).disk x ≡ s.disk x)
      × ((write_log_from start i bs s).pinned x ≡ s.pinned x)
unfolding write_log_from
write_log_from-other start i x [] s h = (refl, refl)
write_log_from-other start i x (b ∷ bs) s h =
    ground (arith, write_log_from-other start (i + 1) x bs (bwrite s (start + i + 1) (bread s b)))

-- `install_from` writes the blocks of its list and nothing else.
pub install_from-other :
    (start i x : ℕ) (bs : List ℕ) (s : Store)
    → elem x bs ≡ false
    → ((install_from start i bs s).disk x ≡ s.disk x)
      × ((install_from start i bs s).pinned x ≡ s.pinned x)
unfolding install_from
install_from-other start i x [] s h = (refl, refl)
install_from-other start i x (b ∷ bs) s h =
    ground (arith, install_from-other start (i + 1) x bs (bwrite s b (bread s (start + i + 1))))

-- Slot `i + 1` and those after it hold `f b` for each block `b` of the list.
abbrev pub SlotsHold : ℕ → ℕ → List ℕ → (ℕ → Block) → (ℕ → Block) → Type 0
SlotsHold start i [] f d = Unit {0}
SlotsHold start i (b ∷ bs) f d = (d (start + i + 1) ≡ f b) × SlotsHold start (i + 1) bs f d

pub write_log_from-SlotsHold :
    (start n i : ℕ) (bs : List ℕ) (f : ℕ → Block) (s : Store)
    → All (Outside start n) bs
    → i + length bs ≤ n
    → length bs ≤ s.power
    → All (λ b. bread s b ≡ f b) bs
    → SlotsHold start i bs f (write_log_from start i bs s).disk
unfolding write_log_from
write_log_from-SlotsHold start n i [] f s out fit on same = tt
write_log_from-SlotsHold start n i (b ∷ bs) f s out fit on same = (
  ground (arith, write_log_from-other start (i + 1) (start + i + 1) bs s'),
  write_log_from-SlotsHold start n (i + 1) bs f s' out.1 (omega arith) (omega arith)
      (All-bwrite bs out.1 same.1),
)
  where
    s' : Store
    s' = bwrite s (start + i + 1) (bread s b)

    All-bwrite :
        (cs : List ℕ)
        → All (Outside start n) cs
        → All (λ c. bread s c ≡ f c) cs
        → All (λ c. bread s' c ≡ f c) cs
    All-bwrite [] o h = tt
    All-bwrite (c ∷ cs) o h = (ground arith, All-bwrite cs o.1 h.1)

-- With power enough, `install_from` copies the slots to their blocks.
pub install_from-installed :
    (start n i x : ℕ) (bs : List ℕ) (slots : ℕ → Block) (s : Store)
    → All (Outside start n) bs
    → i + length bs ≤ n
    → length bs ≤ s.power
    → ((j : ℕ) → j ≤ n → bread s (start + j) ≡ slots (start + j))
    → (install_from start i bs s).disk x ≡ installed start i bs slots x (s.disk x)
unfolding install_from installed
install_from-installed start n i x [] slots s out fit on same = refl
install_from-installed start n i x (b ∷ bs) slots s out fit on same =
    install_from-installed start n (i + 1) x bs slots s' out.1 (omega arith) (omega arith)
      (λ j h. ground (arith, same j))
    ∙ ap (installed start (i + 1) bs slots x) (ground (arith, same (i + 1)))
  where
    s' : Store
    s' = bwrite s b (bread s (start + i + 1))

pub installed-SlotsHold :
    (start i x : ℕ) (bs : List ℕ) (f slots : ℕ → Block) (old : Block)
    → SlotsHold start i bs f slots
    → installed start i bs slots x old ≡ (if elem x bs then f x else old)
unfolding installed
installed-SlotsHold start i x [] f slots old h = refl
installed-SlotsHold start i x (b ∷ bs) f slots old h = ground (
  arith,
  installed-SlotsHold start (i + 1) x bs f slots (if b == x then slots (start + i + 1) else old),
)

-- Slots that stay hold what they held.
pub SlotsHold-same :
    (start n i : ℕ) (bs : List ℕ) (f d d' : ℕ → Block)
    → i + length bs ≤ n
    → ((j : ℕ) → 0 < j → j ≤ n → d' (start + j) ≡ d (start + j))
    → SlotsHold start i bs f d
    → SlotsHold start i bs f d'
SlotsHold-same start n i [] f d d' fit same h = tt
SlotsHold-same start n i (b ∷ bs) f d d' fit same h =
    (ground (arith, same (i + 1)), SlotsHold-same start n (i + 1) bs f d d' (omega arith) same h.1)

pub put_blocks-low : (hb : Block) (i j : ℕ) (bs : List ℕ) → j < i → put_blocks hb i bs j ≡ hb j
unfolding put_blocks
put_blocks-low hb i j [] h = refl
put_blocks-low hb i j (b ∷ bs) h = ground (arith, put_blocks-low (update hb i b) (i + 1) j bs)

pub header_blocks-put_blocks :
    (hb : Block) (i : ℕ) (bs : List ℕ) → header_blocks (put_blocks hb i bs) i (length bs) ≡ bs
unfolding header_blocks put_blocks
header_blocks-put_blocks hb i [] = refl
header_blocks-put_blocks hb i (b ∷ bs) = ground (
  arith,
  put_blocks-low (update hb i b) (i + 1) i bs,
  header_blocks-put_blocks (update hb i b) (i + 1) bs,
)

-- Blocks outside the log are not among its slots.
pub elem-Outside :
    (start n x : ℕ) (bs : List ℕ)
    → All (Outside start n) bs
    → start ≤ x
    → x ≤ start + n
    → elem x bs ≡ false
elem-Outside start n x [] h lo hi = refl
elem-Outside start n x (b ∷ bs) h lo hi = ground (arith, elem-Outside start n x bs h.1 lo hi)

pub write_log_from-unpinned :
    (start i x : ℕ) (bs : List ℕ) (s : Store)
    → s.pinned x ≡ none
    → (write_log_from start i bs s).pinned x ≡ none
unfolding write_log_from
write_log_from-unpinned start i x [] s h = h
write_log_from-unpinned start i x (b ∷ bs) s h =
    write_log_from-unpinned start (i + 1) x bs (bwrite s (start + i + 1) (bread s b)) (ground arith)
