-- ===== src/Printf/Examples.antt =====
-- 407, with a space behind it, and the least number.
use chameleon_os.Base.{
  ◌^◌, ◌≡◌, ◌≤◌, refl, true, false, [], ◌∷◌, ◌++◌, arith, length, leb, if◌then◌else◌,
}
use chameleon_os.Printf.{digits_of, buffer, printint, printf_from, conversion, printf, atoi}
use chameleon_os.Printf.Trip.{atoi-printint}
use chameleon_os.Printf.Buffer.{buffer_fits}

-- "%d%%" puts "7%".
puts : printf (λ a. []) (λ i. 7) (b'%' ∷ b'd' ∷ b'%' ∷ b'%' ∷ []) ≡ b'7' ∷ b'%' ∷ []
unfolding printf printf_from conversion printint buffer digits_of
puts = refl

atoi-printint_example :
    atoi (printint 407 10 true ++ b' ' ∷ []) ≡ (if leb (2 ^ 31) 407 then 0 else 407)
atoi-printint_example = atoi-printint 407 (b' ' ∷ []) (omega arith) refl

buffer_fits_example :
    (length (buffer 2147483648 10 true) ≤ 11) × (length (buffer 2147483648 16 false) ≤ 8)
buffer_fits_example = buffer_fits 2147483648 (omega arith)
