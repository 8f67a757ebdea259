-- ===== src/RowId/Encoding.antt =====
-- The bytes of the rows' values: different rows have different bytes.
use secure_fusion.Prelude.{
  ℕ, zero, suc, ◌+◌, ◌*◌, ◌/◌, ◌%◌, ◌^◌, ◌<◌, ◌≡◌, refl, sym, ap, ap₂, ◌∙◌, List, [], ◌∷◌, ◌++◌,
  length, length-append, All, arith,
}
use mathlib.Core.List.{head-eq_of_cons-eq, tail-eq_of_cons-eq}
use native.Mathlib.Nat.{mod-eq_of_lt}
use secure_fusion.RowId.{to_be_bytes, encode_values, row_buffer}

append-eq {ℓ} :
    {A : Type ℓ} (xs ys : List A) {s t : List A}
    → length xs ≡ length ys
    → xs ++ s ≡ ys ++ t
    → (xs ≡ ys) × (s ≡ t)
append-eq [] [] h e = (refl, e)
append-eq [] (y ∷ ys) h e = absurd (omega arith)
append-eq (x ∷ xs) [] h e = absurd (omega arith)
append-eq (x ∷ xs) (y ∷ ys) h e =
    let (rest, ends) = append-eq xs ys (omega arith) (tail-eq_of_cons-eq e) in
    (ap₂ (λ z zs. z ∷ zs) (head-eq_of_cons-eq e) rest, ends)

length-to_be_bytes : (width n : ℕ) → length (to_be_bytes width n) ≡ width
unfolding to_be_bytes
length-to_be_bytes zero n = refl
length-to_be_bytes (suc width) n =
    length-append (to_be_bytes width (n / 256)) (n % 256 ∷ [])
    ∙ ap (λ k. k + 1) (length-to_be_bytes width (n / 256))
    ∙ omega arith

-- The numbers of `width` bytes are those below.
abbrev pub capacity : ℕ → ℕ
capacity zero = 1
capacity (suc width) = capacity width * 256

to_be_bytes_injective :
    (width m n : ℕ)
    → m < capacity width
    → n < capacity width
    → to_be_bytes width m ≡ to_be_bytes width n
    → m ≡ n
unfolding to_be_bytes
to_be_bytes_injective zero m n hm hn e = omega arith
to_be_bytes_injective (suc width) m n hm hn e =
    let same_length : length (to_be_bytes width (m / 256)) ≡ length (to_be_bytes width (n / 256)) =
      length-to_be_bytes width (m / 256) ∙ sym (length-to_be_bytes width (n / 256)) in
    let (high, low) =
      append-eq (to_be_bytes width (m / 256)) (to_be_bytes width (n / 256)) same_length e in
    omega (
      arith,
      to_be_bytes_injective width (m / 256) (n / 256) (omega arith) (omega arith) high,
      head-eq_of_cons-eq low,
    )

-- A length that fits a usize.
abbrev pub FitsUsize : List ℕ → Type 0
FitsUsize value = length value < 2 ^ 64

encode_values_injective :
    (vs ws : List (List ℕ))
    → All FitsUsize vs
    → All FitsUsize ws
    → length vs ≡ length ws
    → encode_values vs ≡ encode_values ws
    → vs ≡ ws
unfolding encode_values to_be_bytes
encode_values_injective [] [] hv hw h e = refl
encode_values_injective [] (w ∷ ws) hv hw h e = absurd (omega arith)
encode_values_injective (v ∷ vs) [] hv hw h e = absurd (omega arith)
encode_values_injective (v ∷ vs) (w ∷ ws) hv hw h e =
    let (prefix, rest) =
      append-eq (to_be_bytes 8 (length v)) (to_be_bytes 8 (length w))
        (length-to_be_bytes 8 (length v) ∙ sym (length-to_be_bytes 8 (length w))) e in
    let (same, others) =
      append-eq v w (to_be_bytes_injective 8 (length v) (length w) hv.0 hw.0 prefix) rest in
    ap₂ (λ z zs. z ∷ zs) same (encode_values_injective vs ws hv.1 hw.1 (omega arith) others)

-- Two rows with fewer than 256 values each, whose lengths fit a usize, have different buffers unless
-- they have the same values: the identifier of a row is derived from all that it holds.
pub row_buffer_injective :
    (vs ws : List (List ℕ))
    → length vs < 256
    → length ws < 256
    → All FitsUsize vs
    → All FitsUsize ws
    → row_buffer vs ≡ row_buffer ws
    → vs ≡ ws
unfolding row_buffer
row_buffer_injective vs ws sv sw hv hw e =
    encode_values_injective vs ws hv hw
      (sym (mod-eq_of_lt sv) ∙ head-eq_of_cons-eq e ∙ mod-eq_of_lt sw) (tail-eq_of_cons-eq e)
