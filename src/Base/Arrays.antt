-- ===== src/Base/Arrays.antt =====
-- C arrays as functions of the index, counted loops that look for an index, and lists measured
-- by native numbers.
use Prim.Native.Nat.{ℕ, zero, suc, ◌+◌, ◌≤◌, ◌<◌}
use mathlib.Core.Path.{◌≡◌, subst}
use mathlib.Core.Logic.{inl, inr}
use mathlib.Core.Bool.{Bool, true, false}
use mathlib.Core.Option.{Option, none, some}
use mathlib.Core.List.{List, [], ◌∷◌}
use native.Mathlib.Decide.{dec_le}
use native.Mathlib.Omega.{arith}
use cuddl.Base.Tests.{◌==◌, if◌then◌else◌, Bool-cases}

-- `a[i] = v`
abbrev pub update {ℓ} : {A : Type ℓ} → (ℕ → A) → ℕ → A → ℕ → A
update a i v j = if i == j then v else a j

-- `for (; rounds--; i++) if (test(i)) return i;`
unfoldable pub scan : (ℕ → Bool) → ℕ → ℕ → Option ℕ
scan test i zero = none
scan test i (suc rounds) = let rest = scan test (suc i) rounds in if test i then some i else rest

-- `j` is the first index from `i` on that passes the test.
pub record IsFirst (test : ℕ → Bool) (i j : ℕ) : Type 0 where
  pub from : i ≤ j
  pub passes : test j ≡ true
  pub before : (m : ℕ) → i ≤ m → m < j → test m ≡ false

scan_here :
    (test : ℕ → Bool) (i rounds : ℕ) {j : ℕ}
    → test i ≡ true
    → i ≡ j
    → IsFirst test i j × (j < i + suc rounds)
scan_here test i rounds e h =
    rw (← h) (
      record { from = omega arith; passes = e; before = λ m p q. absurd (omega arith) },
      omega arith,
    )

scan_later :
    (test : ℕ → Bool) (i rounds : ℕ) {j : ℕ}
    → test i ≡ false
    → IsFirst test (suc i) j × (j < suc i + rounds)
    → IsFirst test i j × (j < i + suc rounds)
scan_later test i rounds e (f, b) = (
  record {
    from = omega arith;
    passes = f.passes;
    before = λ m p q. elim (dec_le (suc i) m) [
      | yes l ↦ f.before m l q
      | no l ↦ subst (λ n. test n ≡ false) (omega arith) e
    ];
  },
  omega arith,
)

pub scan-some :
    (test : ℕ → Bool) (i rounds : ℕ) {j : ℕ}
    → scan test i rounds ≡ some j
    → IsFirst test i j × (j < i + rounds)
unfolding scan
scan-some test i zero h = cc
scan-some test i (suc rounds) {j} h = elim (Bool-cases (test i)) [
  | inl e ↦ scan_here test i rounds e (ground arith)
  | inr e ↦ scan_later test i rounds e (scan-some test (suc i) rounds (ground arith))
]

pub scan-none :
    (test : ℕ → Bool) (i rounds m : ℕ)
    → scan test i rounds ≡ none
    → i ≤ m
    → m < i + rounds
    → test m ≡ false
unfolding scan
scan-none test i zero m h p q = absurd (omega arith)
scan-none test i (suc rounds) m h p q = elim (dec_le (suc i) m) [
  | yes l ↦ scan-none test (suc i) rounds m (ground arith) l (omega arith)
  | no l ↦ subst (λ n. test n ≡ false) (let e : i ≡ m = omega arith in e) (ground arith)
]

module _ {ℓ} {A : Type ℓ} where
  abbrev pub length : List A → ℕ
  length [] = 0
  length (x ∷ xs) = suc (length xs)

  abbrev pub take : ℕ → List A → List A
  take zero xs = []
  take (suc n) [] = []
  take (suc n) (x ∷ xs) = x ∷ take n xs

  abbrev pub drop : ℕ → List A → List A
  drop zero xs = xs
  drop (suc n) [] = []
  drop (suc n) (x ∷ xs) = drop n xs
