-- ===== src/Register/Pages.antt =====
-- The default length of a region is the least whole number of pages that holds it.
use cuddl.Base.{
  ℕ, ◌+◌, ◌*◌, ◌/◌, ◌%◌, ◌<◌, ◌≤◌, ◌≡◌, Bool-cases, false, inl, inr, arith, int_mod, int_max_suc,
  lt→ltb, ◌==◌,
}
use native.Mathlib.Nat.{div-add-mod, mod-lt, mod-eq_of_lt, mul-mod_right, mul-add}
use cuddl.Register.{page_size_aligned, size_mod}

next_page :
    (page i q r : ℕ)
    → page * q + r ≡ i
    → r < page
    → 0 < r
    → (i ≤ page * (q + 1)) × (page * (q + 1) < i + page)
next_page page i q r e l p =
    let m : page * (q + 1) ≡ page * q + page * 1 = mul-add page q 1 in (omega arith, omega arith)

unwrapped :
    (page i : ℕ)
    → i / page + 1 < int_max_suc
    → page * (i / page + 1) < size_mod
    → (i % page == 0) ≡ false
    → page_size_aligned page i ≡ page * (i / page + 1)
unfolding page_size_aligned
unwrapped page i q s e = rw (
  e,
  mod-eq_of_lt {n = i / page} {m = int_mod} (omega arith),
  mod-eq_of_lt {n = i / page + 1} {m = int_mod} (omega arith),
  lt→ltb (i / page + 1) int_max_suc q,
  mod-eq_of_lt s,
)

-- For a page size that is not 0, and a length of fewer than 2^31 - 1 pages whose rounding fits into
-- 64 bits: page_size_aligned rounds up to a whole number of pages, and adds less than a page.
pub page_size_aligned_lem :
    (page i : ℕ)
    → 0 < page
    → i / page + 1 < int_max_suc
    → page * (i / page + 1) < size_mod
    → (page_size_aligned page i % page ≡ 0)
      × (i ≤ page_size_aligned page i)
      × (page_size_aligned page i < i + page)
unfolding page_size_aligned
page_size_aligned_lem page i p q s = elim (Bool-cases (i % page == 0)) [
  | inl e ↦ rw e (ground arith, omega arith, omega arith)
  | inr e ↦
      let n =
        next_page page i (i / page) (i % page) (div-add-mod i page) (mod-lt i p) (ground arith) in
      rw (unwrapped page i q s e) (mul-mod_right page (i / page + 1), n.0, n.1)
]
