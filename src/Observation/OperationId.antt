-- ===== src/Observation/OperationId.antt =====
-- The regular expression of the operation ids against the shape that its comment describes.
use Prim.Native.Char.{code}
use Prim.Native.String.{[], ◌∷◌}
use evidra_agentgateway_brid.Prelude.{
  ℕ, zero, suc, String, ◌≡◌, refl, ap, ◌↔◌, ◌⊎◌, inl, inr, Bool, true, false, ◌||◌, nat_eq,
  Bool-cases, arith,
}
use evidra_agentgateway_brid.Text.{◌⧺◌, has_prefix, drop}
use evidra_agentgateway_brid.Text.Prefix.{has_prefix_sound, has_prefix-append, drop-append}
use evidra_agentgateway_brid.Observation.{is_crockford, matches_body, operation_id_pattern}

-- Crockford's base 32: the digits, and the capitals without I, L, O and U.
abbrev pub alphabet : String
alphabet = "0123456789ABCDEFGHJKMNPQRSTVWXYZ"

-- The code point is one of those of the text.
abbrev pub Occurs : ℕ → String → Type 0
Occurs n [] = ⊥
Occurs n (c ∷ s) = (n ≡ code c) ⊎ Occurs n s

-- Every code point is one of the alphabet.
abbrev pub IsCrockford : String → Type 0
IsCrockford [] = Unit
IsCrockford (c ∷ s) = Occurs (code c) alphabet × IsCrockford s

abbrev occurs : ℕ → String → Bool
occurs n [] = false
occurs n (c ∷ s) = nat_eq n (code c) || occurs n s

occurs_iff : (n : ℕ) (s : String) → occurs n s ≡ true ↔ Occurs n s
occurs_iff n [] = ((λ h. cc h), (λ h. absurd h))
occurs_iff n (c ∷ s) =
    let (f, g) = occurs_iff n s in
    (
      λ h. elim (Bool-cases (nat_eq n (code c))) [
        | inl e ↦ inl (ground arith)
        | inr e ↦ inr (f (ground arith))
      ],
      λ h. elim h [ inl e ↦ ground arith | inr m ↦ (let k = g m in ground arith) ],
    )

crockford_occurs : (n : ℕ) → is_crockford n ≡ occurs n alphabet
unfolding is_crockford
crockford_occurs n = ground arith

crockford_iff : (n : ℕ) → is_crockford n ≡ true ↔ Occurs n alphabet
crockford_iff n = rw (crockford_occurs n) (occurs_iff n alphabet)

-- The number of code points.
abbrev pub size : String → ℕ
size [] = 0
size (c ∷ s) = suc (size s)

matches_body_sound : (n : ℕ) (s : String) → matches_body n s ≡ true → (size s ≡ n) × IsCrockford s
unfolding matches_body
matches_body_sound zero [] h = (refl, tt)
matches_body_sound zero (c ∷ s) h = cc
matches_body_sound (suc n) [] h = cc
matches_body_sound (suc n) (c ∷ s) h =
    let a : is_crockford (code c) ≡ true = ground arith in
    let b : matches_body n s ≡ true = ground arith in
    let (e, k) = matches_body_sound n s b in (ap suc e, ((crockford_iff (code c)).0 a, k))

matches_body_complete : (n : ℕ) (s : String) → size s ≡ n → IsCrockford s → matches_body n s ≡ true
unfolding matches_body
matches_body_complete zero [] h k = refl
matches_body_complete zero (c ∷ s) h k = absurd (omega arith)
matches_body_complete (suc n) [] h k = absurd (omega arith)
matches_body_complete (suc n) (c ∷ s) h (a, k) =
    let b = (crockford_iff (code c)).1 a in
    let r = matches_body_complete n s (omega arith) k in ground arith

-- The pattern accepts exactly `EV-` in front of 26 characters of Crockford's base 32, which are the
-- digits and the capitals without I, L, O and U.
pub operation_id_pattern_iff :
    (s : String)
    → (operation_id_pattern s ≡ true)
      ↔ ((body : String) × (s ≡ "EV-" ⧺ body) × (size body ≡ 26) × IsCrockford body)
unfolding operation_id_pattern
operation_id_pattern_iff s = (
  λ h.
      let p : has_prefix "EV-" s ≡ true = ground arith in
      let (n, k) = matches_body_sound 26 (drop "EV-" s) (ground arith) in
      (drop "EV-" s, has_prefix_sound "EV-" s p, n, k),
  λ (body, e, n, k).
      rw (e, has_prefix-append "EV-" body, drop-append "EV-" body)
        (matches_body_complete 26 body n k),
)
