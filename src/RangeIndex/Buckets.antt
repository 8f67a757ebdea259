-- ===== src/RangeIndex/Buckets.antt =====
-- The buckets of a range index: where they keep the order of the values, and where they do not.
use secure_fusion.Prelude.{
  ℕ, suc, ◌*◌, ◌/◌, ◌%◌, ◌^◌, ◌≤◌, ◌<◌, ◌≡◌, refl, ap, ◌∙◌, arith, Bool-cases, inl, inr,
}
use native.Mathlib.Nat.{mod-eq_of_lt, div-lt_iff_lt-mul, mul-div_cancel, le-div_iff_mul-le}
use secure_fusion.Prelude.Int.{ℤ, pos, ◌≤ℤ◌, ◌<ℤ◌, leb_ℤ, distance}
use secure_fusion.Run.{returns}
use secure_fusion.RangeIndex.{uniform, distribution_value_to_indexable, div_i64, wrap_i64}

-- The bucket of a value, counted in steps of `k + 1` from `min`.
abbrev pub bucket : ℤ → ℕ → ℤ → ℕ
bucket min k x = distance x min / suc k

-- The difference to `min` fits an i64, and the bucket fits a u32.
pub record Fits (min : ℤ) (k : ℕ) (x : ℤ) : Type 0 where
  pub no_overflow : distance x min < 2 ^ 63
  pub no_truncation : bucket min k x < 2 ^ 32

zero-div : (k : ℕ) → 0 / suc k ≡ 0
zero-div k = omega arith

wrap_i64-pos : (d : ℕ) → d < 2 ^ 63 → wrap_i64 d ≡ pos d
wrap_i64-pos d h = ground arith

-- Above `min`, a difference that fits an i64 is divided and cut down to 32 bits.
pub value_to_indexable-mod :
    (min : ℤ) (k : ℕ) (x : ℤ)
    → distance x min < 2 ^ 63
    → distribution_value_to_indexable (uniform min (pos (suc k))) x
      ≡ returns (bucket min k x % 2 ^ 32)
unfolding distribution_value_to_indexable div_i64
value_to_indexable-mod min k x h = elim (Bool-cases (leb_ℤ x min)) [
  | inl e ↦ let none_left : distance x min ≡ 0 = ground arith in rw (e, none_left, zero-div k) refl
  | inr e ↦ rw (e, wrap_i64-pos (distance x min) h) refl
]

-- The bucket of a value is its difference to `min`, or 0 below it, divided by the positive interval:
-- where the difference fits an i64 and the quotient a u32.
pub value_to_indexable-bucket :
    (min : ℤ) (k : ℕ) (x : ℤ)
    → Fits min k x
    → distribution_value_to_indexable (uniform min (pos (suc k))) x ≡ returns (bucket min k x)
value_to_indexable-bucket min k x fits =
    value_to_indexable-mod min k x fits.no_overflow ∙ ap returns (mod-eq_of_lt fits.no_truncation)

div_mono : (m n k : ℕ) → m ≤ n → m / suc k ≤ n / suc k
div_mono m n k h = grind arith

pub bucket_mono : (min : ℤ) (k : ℕ) (x y : ℤ) → x ≤ℤ y → bucket min k x ≤ bucket min k y
bucket_mono min k x y h = div_mono (distance x min) (distance y min) k (omega arith)

suc-pos : (k : ℕ) → 0 < suc k
suc-pos k = omega arith

-- The bucket numbers start again at 0 after 2 ^ 32 buckets: such a value has a smaller number than
-- each value below it that fits and lies above the first bucket.
pub value_to_indexable_wraps :
    (min : ℤ) (k : ℕ) (x y : ℤ)
    → Fits min k x
    → suc k ≤ distance x min
    → distance y min ≡ 2 ^ 32 * suc k
    → distance y min < 2 ^ 63
    → (b : ℕ) × (distribution_value_to_indexable (uniform min (pos (suc k))) x ≡ returns b)
      × (x <ℤ y)
      × (distribution_value_to_indexable (uniform min (pos (suc k))) y ≡ returns 0)
      × (0 < b)
value_to_indexable_wraps min k x y fits h far fits_i64 = (
  bucket min k x,
  value_to_indexable-bucket min k x fits,
  omega (
    arith,
    (div-lt_iff_lt-mul {x = distance x min} {y = 2 ^ 32} (suc-pos k)).0 fits.no_truncation,
  ),
  value_to_indexable-mod min k y fits_i64
      ∙ ap (λ d. returns (d / suc k % 2 ^ 32)) far
      ∙ ap (λ q. returns (q % 2 ^ 32)) (mul-div_cancel (2 ^ 32) (suc-pos k)),
  (le-div_iff_mul-le {x = 1} {y = distance x min} (suc-pos k)).1 (omega arith),
)
