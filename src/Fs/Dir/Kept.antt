-- ===== src/Fs/Dir/Kept.antt =====
-- Directories of fs.c: reading and adding entries leaves `log.outstanding` alone.
use chameleon_os.Base.{ℕ, zero, suc, ◌+◌, List, if◌then◌else◌, ◌==◌, length}
use chameleon_os.Base.Machine.{ok, panic}
use chameleon_os.Fs.Disk.{Fs}
use chameleon_os.Fs.Map.{Transfer, moved, denied, passed_on}
use chameleon_os.Fs.Map.Kept.{readi-Gives, writei-Gives}
use chameleon_os.Fs.Cache.Kept.{iget-Gives}
use chameleon_os.Fs.Dir.{read_dirent, dirlookup_from, dirlookup, free_entry, add_entry, dirent_size}
use chameleon_os.Fs.Kept.{Open, Keeps, Gives, Gives-then, Keeps-then, kept_rules}

whole_Gives :
    (n : ℕ) (fs : Fs) (r : Transfer (List ℕ))
    → Open n fs
    → Gives n {A = List ℕ} (elim r [
      | moved bytes ↦ if length bytes == dirent_size then ok (fs, bytes) else panic
      | denied ↦ panic
      | passed_on major ↦ panic
    ])
whole_Gives n fs (moved bytes) h = search kept_rules
whole_Gives n fs denied h = search kept_rules
whole_Gives n fs (passed_on major) h = search kept_rules

pub read_dirent-Gives : (n : ℕ) (fs : Fs) (dp off : ℕ) → Open n fs → Gives n (read_dirent fs dp off)
unfolding read_dirent
read_dirent-Gives n fs dp off h =
    Gives-then _ _ (readi-Gives n fs dp off _ h) (λ fs1 r h1. whole_Gives n fs1 r h1)

dirlookup_from-Gives :
    (n : ℕ) (fs : Fs) (dp : ℕ) (name : List ℕ) (off k : ℕ)
    → Open n fs
    → Gives n (dirlookup_from fs dp name off k)
unfolding dirlookup_from
dirlookup_from-Gives n fs dp name off zero h = search kept_rules
dirlookup_from-Gives n fs dp name off (suc k) h =
    Gives-then _ _ (read_dirent-Gives n fs dp off h) (λ fs1 de h1.
      let rest = dirlookup_from-Gives n fs1 dp name (off + dirent_size) k h1 in
      search (kept_rules, iget-Gives))

pub dirlookup-Gives :
    (n : ℕ) (fs : Fs) (dp : ℕ) (name : List ℕ) → Open n fs → Gives n (dirlookup fs dp name)
unfolding dirlookup
dirlookup-Gives n fs dp name h = search (kept_rules, dirlookup_from-Gives)

free_entry-Gives : (n : ℕ) (fs : Fs) (dp off k : ℕ) → Open n fs → Gives n (free_entry fs dp off k)
unfolding free_entry
free_entry-Gives n fs dp off zero h = search kept_rules
free_entry-Gives n fs dp off (suc k) h =
    Gives-then _ _ (read_dirent-Gives n fs dp off h) (λ fs1 de h1.
      let rest = free_entry-Gives n fs1 dp (off + dirent_size) k h1 in search kept_rules)

written_Keeps :
    (n : ℕ) (fs : Fs) (r : Transfer ℕ)
    → Open n fs
    → Keeps n (elim r [
      | moved m ↦ if m == dirent_size then ok fs else panic
      | denied ↦ panic
      | passed_on major ↦ panic
    ])
written_Keeps n fs (moved m) h = search kept_rules
written_Keeps n fs denied h = search kept_rules
written_Keeps n fs (passed_on major) h = search kept_rules

pub add_entry-Keeps :
    (n : ℕ) (fs : Fs) (dp : ℕ) (name : List ℕ) (inum : ℕ)
    → Open n fs
    → Keeps n (add_entry fs dp name inum)
unfolding add_entry
add_entry-Keeps n fs dp name inum h = Keeps-then _ _ (free_entry-Gives n fs dp 0 _ h) (λ fs1 off h1.
    Keeps-then _ _ (writei-Gives n fs1 dp _ off h1) (λ fs2 r h2. written_Keeps n fs2 r h2))
