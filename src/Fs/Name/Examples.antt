-- ===== src/Fs/Name/Examples.antt =====
-- The loop of `namex` of fs.c on a short path.
use chameleon_os.Base.{◌≡◌, false, [], ◌∷◌, arith}
use chameleon_os.Fs.Name.{walk}
use chameleon_os.Fs.Name.Walk.{walk_lem}
use chameleon_os.Fs.Sample.{disk}

-- "/a", with 3 rounds and with 90.
walk_lem_example :
    walk disk 3 0 (b'/' ∷ b'a' ∷ []) false [] 3 ≡ walk disk 3 0 (b'/' ∷ b'a' ∷ []) false [] 90
walk_lem_example = walk_lem disk 3 0 (b'/' ∷ b'a' ∷ []) false [] 3 90 (omega arith) (omega arith)
