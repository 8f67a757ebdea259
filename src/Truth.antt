-- ===== src/Truth.antt =====
-- SQL's three truth values: a comparison with a missing value is `unknown`, and a row is kept only
-- where the condition `holds`. The filters of backends/mysql/src/filtering are conditions of SQL.
use secure_fusion.Prelude.{◌≡◌, refl, ap, ap₂, ◌∙◌, ◌⊎◌, inl, inr, arith}

pub data Truth : Type 0 where
  holds fails unknown : Truth

abbrev pub and₃ : Truth → Truth → Truth
and₃ holds b = b
and₃ fails b = fails
and₃ unknown holds = unknown
and₃ unknown fails = fails
and₃ unknown unknown = unknown

abbrev pub or₃ : Truth → Truth → Truth
or₃ fails b = b
or₃ holds b = holds
or₃ unknown holds = holds
or₃ unknown fails = unknown
or₃ unknown unknown = unknown

abbrev pub not₃ : Truth → Truth
not₃ holds = fails
not₃ fails = holds
not₃ unknown = unknown

pub not₃-and₃ : (a b : Truth) → not₃ (and₃ a b) ≡ or₃ (not₃ a) (not₃ b)
not₃-and₃ holds b = refl
not₃-and₃ fails b = refl
not₃-and₃ unknown holds = refl
not₃-and₃ unknown fails = refl
not₃-and₃ unknown unknown = refl

pub not₃-or₃ : (a b : Truth) → not₃ (or₃ a b) ≡ and₃ (not₃ a) (not₃ b)
not₃-or₃ holds b = refl
not₃-or₃ fails b = refl
not₃-or₃ unknown holds = refl
not₃-or₃ unknown fails = refl
not₃-or₃ unknown unknown = refl

pub not₃_twice : (a : Truth) → not₃ (not₃ a) ≡ a
not₃_twice holds = refl
not₃_twice fails = refl
not₃_twice unknown = refl

pub and₃-holds : (a : Truth) → and₃ a holds ≡ a
and₃-holds holds = refl
and₃-holds fails = refl
and₃-holds unknown = refl

pub and₃_comm : (a b : Truth) → and₃ a b ≡ and₃ b a
and₃_comm holds b = ground arith
and₃_comm fails b = ground arith
and₃_comm unknown b = ground arith

pub and₃_assoc : (a b c : Truth) → and₃ (and₃ a b) c ≡ and₃ a (and₃ b c)
and₃_assoc holds b c = refl
and₃_assoc fails b c = refl
and₃_assoc unknown b c = ground arith

pub or₃_comm : (a b : Truth) → or₃ a b ≡ or₃ b a
or₃_comm holds b = ground arith
or₃_comm fails b = ground arith
or₃_comm unknown b = ground arith

-- Two conjunctions, regrouped by their first and their second parts.
pub and₃_swap : (a b c d : Truth) → and₃ (and₃ a b) (and₃ c d) ≡ and₃ (and₃ a c) (and₃ b d)
and₃_swap holds b c d = ground arith
and₃_swap fails b c d = refl
and₃_swap unknown b c d = ground arith

pub or₃-and₃ : (a b c : Truth) → or₃ a (and₃ b c) ≡ and₃ (or₃ a b) (or₃ a c)
or₃-and₃ holds b c = refl
or₃-and₃ fails b c = refl
or₃-and₃ unknown b c = ground arith

pub and₃-or₃ : (a b c : Truth) → or₃ (and₃ a b) c ≡ and₃ (or₃ a c) (or₃ b c)
and₃-or₃ holds b c = ground arith
and₃-or₃ fails b c = ground arith
and₃-or₃ unknown b c = ground arith

-- A conjunction holds if both sides do, and a disjunction if one side does.
pub and₃-eq-holds : (a b : Truth) → and₃ a b ≡ holds → (a ≡ holds) × (b ≡ holds)
and₃-eq-holds holds b h = (refl, h)
and₃-eq-holds fails b h = cc
and₃-eq-holds unknown b h = ground arith

pub or₃-eq-holds : (a b : Truth) → or₃ a b ≡ holds → (a ≡ holds) ⊎ (b ≡ holds)
or₃-eq-holds holds b h = inl refl
or₃-eq-holds fails b h = inr h
or₃-eq-holds unknown b h = ground arith

-- The connectives of two filters that imply two others.
pub both_hold :
    (a b : Truth) {a' b' : Truth}
    → (a ≡ holds → a' ≡ holds)
    → (b ≡ holds → b' ≡ holds)
    → and₃ a b ≡ holds
    → and₃ a' b' ≡ holds
both_hold a b f g h = let (p, q) = and₃-eq-holds a b h in ap₂ and₃ (f p) (g q)

pub one_holds :
    (a b : Truth) {a' b' : Truth}
    → (a ≡ holds → a' ≡ holds)
    → (b ≡ holds → b' ≡ holds)
    → or₃ a b ≡ holds
    → or₃ a' b' ≡ holds
one_holds a b {a'} {b'} f g h = elim (or₃-eq-holds a b h) [
  | inl p ↦ ap (λ t. or₃ t b') (f p)
  | inr q ↦ or₃_comm a' b' ∙ ap (λ t. or₃ t a') (g q)
]
