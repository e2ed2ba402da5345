-- ===== src/Text/Prefix.antt =====
-- Prefixes, and texts in which a character does not occur.
use Prim.Native.Char.{Char, code}
use Prim.Native.String.{[], ◌∷◌}
use text.Mathlib.TextEquality.{Char-path}
use text.Mathlib.TextLemmas.{nil-append, cons-append}
use evidra_agentgateway_brid.Prelude.{
  ℕ, String, ◌≡◌, ◌≢◌, refl, ap, sym, ◌==◌, ◌&&◌, true, arith, Bool-cases, inl, inr,
}
use evidra_agentgateway_brid.Text.{
  ◌⧺◌, is_space, trim_left, trim_right, trim_space, has_prefix, drop,
}

pub has_prefix_sound : (p s : String) → has_prefix p s ≡ true → s ≡ p ⧺ drop p s
unfolding has_prefix drop
has_prefix_sound [] s h = rw nil-append
has_prefix_sound (c ∷ p) [] h = cc
has_prefix_sound (c ∷ p) (d ∷ s) h =
    let same : code d ≡ code c = ground arith in
    rw (cons-append, Char-path d c same, ← has_prefix_sound p s (ground arith))

pub has_prefix-append : (p s : String) → has_prefix p (p ⧺ s) ≡ true
unfolding has_prefix
has_prefix-append [] s = refl
has_prefix-append (c ∷ p) s = rw cons-append (ground (arith, has_prefix-append p s))

pub drop-append : (p s : String) → drop p (p ⧺ s) ≡ s
unfolding drop
drop-append [] s = rw nil-append
drop-append (c ∷ p) s = rw cons-append (drop-append p s)

-- The character with this code point does not occur.
abbrev pub Lacks : ℕ → String → Type 0
Lacks n [] = Unit
Lacks n (c ∷ s) = (code c ≢ n) × Lacks n s

Lacks-trim_left : (n : ℕ) (s : String) → Lacks n s → Lacks n (trim_left s)
unfolding trim_left
Lacks-trim_left n [] h = tt
Lacks-trim_left n (c ∷ s) h = elim (Bool-cases (is_space (code c))) [
  | inl e ↦ rw e (Lacks-trim_left n s h.1)
  | inr e ↦ rw e h
]

Lacks-trim_right : (n : ℕ) (s : String) → Lacks n s → Lacks n (trim_right s)
unfolding trim_right
Lacks-trim_right n [] h = tt
Lacks-trim_right n (c ∷ s) h = elim (Bool-cases (is_space (code c) && trim_right s == "")) [
  | inl e ↦ rw e tt
  | inr e ↦ rw e (h.0, Lacks-trim_right n s h.1)
]

pub Lacks-trim_space : (n : ℕ) (s : String) → Lacks n s → Lacks n (trim_space s)
unfolding trim_space
Lacks-trim_space n s h = Lacks-trim_right n (trim_left s) (Lacks-trim_left n s h)

-- A text is cut at the first occurrence of a character in one way.
pub cut_unique :
    (sep : Char) (a b x y : String)
    → Lacks (code sep) a
    → Lacks (code sep) b
    → a ⧺ (sep ∷ x) ≡ b ⧺ (sep ∷ y)
    → (a ≡ b) × (x ≡ y)
cut_unique sep [] [] x y h k e = (refl, cc (nil-append (sep ∷ x), nil-append (sep ∷ y)))
cut_unique sep [] (d ∷ b) x y h k e =
    let same : sep ≡ d = cc (nil-append (sep ∷ x), cons-append d b (sep ∷ y)) in
    absurd (k.0 (ap code (sym same)))
cut_unique sep (c ∷ a) [] x y h k e =
    let same : c ≡ sep = cc (nil-append (sep ∷ y), cons-append c a (sep ∷ x)) in
    absurd (h.0 (ap code same))
cut_unique sep (c ∷ a) (d ∷ b) x y h k e =
    let first : c ≡ d = cc (cons-append c a (sep ∷ x), cons-append d b (sep ∷ y)) in
    let rest : a ⧺ (sep ∷ x) ≡ b ⧺ (sep ∷ y) =
      cc (cons-append c a (sep ∷ x), cons-append d b (sep ∷ y)) in
    let (p, q) = cut_unique sep a b x y h.1 k.1 rest in (cc, q)
