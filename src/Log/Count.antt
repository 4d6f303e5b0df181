-- ===== src/Log/Count.antt =====
-- How `begin_op` and `end_op` of log.c count the operations.
use chameleon_os.Base.{
  ◌+◌, ◌*◌, ◌%◌, ◌^◌, ◌≡◌, refl, sym, ◌∙◌, ap, inl, inr, true, ◌&&◌, ◌||◌, ◌==◌, ltb, Bool-cases,
  length,
}
use chameleon_os.Base.Machine.{ok, ok-injective, uint_add, uint_sub}
use chameleon_os.Store.{Store}
use chameleon_os.Log.{
  Log, log_size, max_op_blocks, commit, begin_op, end_op_count, end_op_commit, end_op,
}

-- An operation that starts is counted.
pub begin_op-outstanding :
    (l : Log) → (begin_op l).1 ≡ true → (begin_op l).0.outstanding ≡ uint_add l.outstanding 1
unfolding begin_op
begin_op-outstanding l h =
    let need = (length l.lh + uint_add l.outstanding 1 * max_op_blocks) % 2 ^ 32 in
    elim (Bool-cases (l.committing || (ltb log_size need && ltb need (2 ^ 31)))) [
      | inl q ↦ absurd (cc (rw (begin_op, q) at h))
      | inr q ↦ rw (begin_op, q) refl
    ]

commit-outstanding : (l : Log) (s : Store) → (commit l s).0.outstanding ≡ l.outstanding
unfolding commit
commit-outstanding l s = elim (Bool-cases (ltb 0 (length l.lh))) [
  | inl q ↦ rw (commit, q) refl
  | inr q ↦ rw (commit, q) refl
]

-- An operation that ends is not counted any more, whether it commits or not.
pub end_op-outstanding :
    (l l' : Log) (s s' : Store)
    → end_op l s ≡ ok (l', s')
    → l'.outstanding ≡ uint_sub l.outstanding 1
unfolding end_op end_op_count end_op_commit
end_op-outstanding l l' s s' h = elim (Bool-cases l.committing) [
  | inl c ↦ absurd (cc (rw (end_op, end_op_count, c) at h))
  | inr c ↦ elim (Bool-cases (uint_sub l.outstanding 1 == 0)) [
    | inl z ↦
        let e =
          ap (λ (r : Log × Store). r.0.outstanding)
            (ok-injective (rw (end_op, end_op_count, end_op_commit, c, z) at h)) in
        sym e
        ∙ commit-outstanding
            (record l { outstanding = uint_sub l.outstanding 1; committing = true }) s
    | inr z ↦ sym (
        ap (λ (r : Log × Store). r.0.outstanding)
          (ok-injective (rw (end_op, end_op_count, c, z) at h)))
  ]
]
