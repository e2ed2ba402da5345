-- ===== src/Text/Space.antt =====
-- Trimming: what is left has no space at its ends.
use Prim.Native.Char.{Char, code}
use Prim.Native.String.{[], ◌∷◌}
use evidra_agentgateway_brid.Prelude.{
  String, ◌≡◌, refl, ◌⊎◌, false, ◌==◌, ◌&&◌, arith, inl, inr, Bool-cases,
}
use evidra_agentgateway_brid.Text.{is_space, trim_left, trim_right, trim_space}

-- `strings.TrimSpace(s) == ""`
abbrev pub IsBlank : String → Type 0
IsBlank s = trim_space s ≡ ""

trim_right_idem : (s : String) → trim_right (trim_right s) ≡ trim_right s
unfolding trim_right
trim_right_idem [] = refl
trim_right_idem (c ∷ s) = elim (Bool-cases (is_space (code c) && trim_right s == "")) [
  | inl e ↦ rw e
  | inr e ↦ rw (e, trim_right_idem s, e)
]

trim_left-cases :
    (s : String)
    → (trim_left s ≡ "")
      ⊎ ((c : Char) × (t : String) × (trim_left s ≡ c ∷ t) × (is_space (code c) ≡ false))
unfolding trim_left
trim_left-cases [] = inl refl
trim_left-cases (c ∷ s) = elim (Bool-cases (is_space (code c))) [
  | inl e ↦ rw e (trim_left-cases s)
  | inr e ↦ rw e (inr (c, s, refl, e))
]

-- Trimming twice is trimming once.
pub trim_space_idem : (s : String) → trim_space (trim_space s) ≡ trim_space s
unfolding trim_space trim_left trim_right
trim_space_idem s = elim (trim_left-cases s) [
  | inl e ↦ rw e
  | inr (c, t, e, n) ↦ ground (arith, e, n, trim_right_idem t)
]

pub trim_space-nil : trim_space "" ≡ ""
unfolding trim_space trim_left trim_right
trim_space-nil = refl
