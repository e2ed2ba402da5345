-- ===== src/Text/Order.antt =====
-- The bytewise order of texts, and `sort.Strings`.
use Prim.Native.Nat.{Ordering, compare as compare_ℕ}
use Prim.Native.Char.{code}
use Prim.Native.String.{compare, [], ◌∷◌, then as chain}
use Prim.Native.String.compare as compare_laws
use evidra_agentgateway_brid.Prelude.{ℕ, String, ◌≡◌, refl, Bool, true, false, arith}

-- `s <= t` on Go strings
abbrev pub str_leb : String → String → Bool
str_leb s t = elim (compare s t) [ Ordering.gt ↦ false | _ ↦ true ]

abbrev flip : Ordering → Ordering
flip Ordering.lt = Ordering.gt
flip Ordering.eq = Ordering.eq
flip Ordering.gt = Ordering.lt

flip-compare_ℕ : (m n : ℕ) → compare_ℕ n m ≡ flip (compare_ℕ m n)
flip-compare_ℕ m n = ground arith

flip-then : (o p : Ordering) → chain (flip o) (flip p) ≡ flip (chain o p)
flip-then Ordering.lt p = refl
flip-then Ordering.eq p = refl
flip-then Ordering.gt p = refl

flip-compare : (s t : String) → compare t s ≡ flip (compare s t)
flip-compare [] [] = refl
flip-compare [] (d ∷ t) = rw (compare_laws.nil-cons d t, compare_laws.cons-nil d t)
flip-compare (c ∷ s) [] = rw (compare_laws.nil-cons c s, compare_laws.cons-nil c s)
flip-compare (c ∷ s) (d ∷ t) = rw (
  compare_laws.cons-cons c d s t,
  compare_laws.cons-cons d c t s,
  flip-compare s t,
  flip-compare_ℕ (code c) (code d),
  flip-then (compare_ℕ (code c) (code d)) (compare s t),
)

pub str_leb-total : (s t : String) → str_leb s t ≡ false → str_leb t s ≡ true
str_leb-total s t h = ground (arith, flip-compare s t)
