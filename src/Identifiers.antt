-- ===== src/Identifiers.antt =====
-- The opaque identifiers that are derived from a key: crypto/src/identifiers.rs. The key derivation,
-- which fills a buffer, is an argument.
use secure_fusion.Prelude.{
  ℕ, zero, suc, ◌+◌, ◌-◌, ◌*◌, ◌/◌, ◌%◌, ◌^◌, ◌<◌, ◌≤◌, ◌≡◌, ◌⊎◌, leb, refl, sym, ap, ◌∙◌, true,
  false, Option, none, some, List, [], ◌∷◌, length, All, ltb, if◌then◌else◌, Bool-cases, inl, inr,
  arith,
}
use native.Mathlib.Nat.{pow-succ', mul-le-mul_right, div-lt_iff_lt-mul}
use secure_fusion.RowId.Encoding.{capacity}

-- `output[0] >>= k`, which panics on an empty buffer.
unfoldable pub shift_first : ℕ → List ℕ → Option (List ℕ)
shift_first k [] = none
shift_first k (byte ∷ bytes) = some (byte / 2 ^ k ∷ bytes)

-- The bits of the first byte that are over, of a buffer that may not be filled.
abbrev pub shift_output : (last_byte_bits : ℕ) → Option (List ℕ) → Option (List ℕ)
shift_output last_byte_bits none = none
shift_output last_byte_bits (some output) =
    if ltb 0 last_byte_bits then shift_first (8 - last_byte_bits) output else some output

-- `StableIdentifiersGenerator::get_opaque_stable_identifier`; `fill` is
-- `get_opaque_stable_identifier_in` for a buffer of a number of bytes, whose `unwrap` panics where the
-- key derivation fails. `none` is a panic.
unfoldable pub get_opaque_stable_identifier :
    {Data : Type 0} → (Data → ℕ → Option (List ℕ)) → Data → (length_bits : ℕ) → Option (List ℕ)
get_opaque_stable_identifier fill input length_bits =
    shift_output (length_bits % 8) (fill input ((length_bits + 7) / 8))

abbrev pub IsByte : ℕ → Type 0
IsByte b = b < 256

-- The number that the bytes stand for, the first one being the most significant.
abbrev pub from_be_bytes : List ℕ → ℕ
from_be_bytes [] = 0
from_be_bytes (b ∷ bs) = b * capacity (length bs) + from_be_bytes bs

-- What HKDF does with a buffer: it fills no more than 255 blocks of the hash.
pub record Fills {Data : Type 0} (hash_size : ℕ) (fill : Data → ℕ → Option (List ℕ)) : Type 0 where
  pub fills :
      (input : Data) (n : ℕ)
      → n ≤ 255 * hash_size
      → (out : List ℕ) × (fill input n ≡ some out) × (length out ≡ n) × All IsByte out
  pub refuses : (input : Data) (n : ℕ) → 255 * hash_size < n → fill input n ≡ none

below : (b c rest bound : ℕ) → b < bound → rest < c → b * c + rest < bound * c
below b c rest bound h h' = omega (arith, mul-le-mul_right c h)

from_be_bytes-bound : (bs : List ℕ) → All IsByte bs → from_be_bytes bs < capacity (length bs)
from_be_bytes-bound [] h = omega arith
from_be_bytes-bound (b ∷ bs) h =
    omega (
      arith,
      below b (capacity (length bs)) (from_be_bytes bs) 256 h.0 (from_be_bytes-bound bs h.1),
    )

two-pow-add : (m n : ℕ) → 2 ^ (m + n) ≡ 2 ^ m * 2 ^ n
two-pow-add zero n =
    let none_added : 0 + n ≡ n = omega arith in ap (λ k. 2 ^ k) none_added ∙ omega arith
two-pow-add (suc m) n = grind (arith, pow-succ' 2 (m + n), pow-succ' 2 m, two-pow-add m n)

two-pow-pos : (n : ℕ) → 0 < 2 ^ n
two-pow-pos zero = omega arith
two-pow-pos (suc n) = omega (arith, pow-succ' 2 n, two-pow-pos n)

capacity-pow : (n : ℕ) → capacity n ≡ 2 ^ (n * 8)
capacity-pow zero = refl
capacity-pow (suc n) =
    let exponent : n * 8 + 8 ≡ suc n * 8 = omega arith in
    ap (λ c. c * 256) (capacity-pow n) ∙ sym (two-pow-add (n * 8) 8) ∙ ap (λ k. 2 ^ k) exponent

high_bits : (b r : ℕ) → b < 256 → r < 8 → b / 2 ^ (8 - r) < 2 ^ r
high_bits b r h h' =
    let bits : r + (8 - r) ≡ 8 = omega arith in
    let all_bits : 2 ^ r * 2 ^ (8 - r) ≡ 256 = sym (two-pow-add r (8 - r)) ∙ ap (λ k. 2 ^ k) bits in
    (div-lt_iff_lt-mul {x = b} {y = 2 ^ r} (two-pow-pos (8 - r))).1 (omega (arith, all_bits))

shifted-bound :
    (k : ℕ) (bytes : List ℕ) (q : ℕ)
    → All IsByte bytes
    → k < 8
    → length bytes ≡ suc q
    → (out : List ℕ) × (shift_first (8 - k) bytes ≡ some out)
      × (length out ≡ suc q)
      × (from_be_bytes out < 2 ^ (q * 8 + k))
unfolding shift_first
shifted-bound k [] q h small l = absurd (omega arith)
shifted-bound k (b ∷ bs) q h small l =
    let tail_length : length bs ≡ q = omega arith in
    let value : b / 2 ^ (8 - k) * capacity (length bs) + from_be_bytes bs
        < 2 ^ k * capacity (length bs) =
      below (b / 2 ^ (8 - k)) (capacity (length bs)) (from_be_bytes bs) (2 ^ k)
        (high_bits b k h.0 small) (from_be_bytes-bound bs h.1) in
    let exponent : k + length bs * 8 ≡ q * 8 + k = omega arith in
    let limit : 2 ^ k * capacity (length bs) ≡ 2 ^ (q * 8 + k) =
      ap (λ c. 2 ^ k * c) (capacity-pow (length bs))
      ∙ sym (two-pow-add k (length bs * 8))
      ∙ ap (λ n. 2 ^ n) exponent in
    (b / 2 ^ (8 - k) ∷ bs, refl, l, omega (arith, limit))

ltb→lt : (m n : ℕ) → ltb m n ≡ true → m < n
ltb→lt m n h = ground arith

ltb→zero : (n : ℕ) → ltb 0 n ≡ false → n ≡ 0
ltb→zero n h = ground arith

shifted_output :
    (output : List ℕ) (length_bits : ℕ)
    → length output ≡ (length_bits + 7) / 8
    → All IsByte output
    → (out : List ℕ) × (shift_output (length_bits % 8) (some output) ≡ some out)
      × (length out ≡ (length_bits + 7) / 8)
      × (from_be_bytes out < 2 ^ length_bits)
shifted_output output length_bits filled are_bytes = elim (Bool-cases (ltb 0 (length_bits % 8))) [
  | inl some_bits ↦
      let remainder : 0 < length_bits % 8 = ltb→lt 0 (length_bits % 8) some_bits in
      let exponent : length_bits / 8 * 8 + length_bits % 8 ≡ length_bits = omega arith in
      let (out, done, long, small) =
        shifted-bound (length_bits % 8) output (length_bits / 8) are_bytes (omega arith)
          (omega arith) in
      (out, rw some_bits done, omega arith, omega (arith, ap (λ n. 2 ^ n) exponent))
  | inr whole ↦
      let none_left : length_bits % 8 ≡ 0 = ltb→zero (length_bits % 8) whole in
      let exponent : length output * 8 ≡ length_bits = omega arith in
      (
        output,
        rw whole refl,
        filled,
        omega (
          arith,
          from_be_bytes-bound output are_bytes,
          capacity-pow (length output),
          ap (λ n. 2 ^ n) exponent,
        ),
      )
]

-- An opaque identifier of a number of bits has just enough bytes for them, and the number that they
-- stand for has no more bits, if they are no more than 255 blocks of the hash; with more, the call
-- panics. The key derivation is HKDF, which fills so much and refuses more.
pub get_opaque_stable_identifier-bound :
    {Data : Type 0} (hash_size : ℕ) (fill : Data → ℕ → Option (List ℕ))
    → Fills hash_size fill
    → (input : Data) (length_bits : ℕ)
    → (((length_bits + 7) / 8 ≤ 255 * hash_size)
        × (out : List ℕ) × (get_opaque_stable_identifier fill input length_bits ≡ some out)
        × (length out ≡ (length_bits + 7) / 8)
        × (from_be_bytes out < 2 ^ length_bits))
      ⊎ ((255 * hash_size < (length_bits + 7) / 8)
          × (get_opaque_stable_identifier fill input length_bits ≡ none))
unfolding get_opaque_stable_identifier
get_opaque_stable_identifier-bound hash_size fill good input length_bits =
    elim (Bool-cases (leb ((length_bits + 7) / 8) (255 * hash_size))) [
      | inl fits ↦
          let le : (length_bits + 7) / 8 ≤ 255 * hash_size = ground arith in
          let (output, run, filled, are_bytes) = good.fills input ((length_bits + 7) / 8) le in
          let (out, done, long, small) = shifted_output output length_bits filled are_bytes in
          inl (le, out, ap (shift_output (length_bits % 8)) run ∙ done, long, small)
      | inr over ↦
          let lt : 255 * hash_size < (length_bits + 7) / 8 = ground arith in
          inr (lt, ap (shift_output (length_bits % 8)) (good.refuses input _ lt))
    ]
