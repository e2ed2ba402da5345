-- ===== src/Replay/Paths.antt =====
-- The cut of a path behind its last slash, with which `filepath.Dir` begins.
use Prim.Native.Char.{code}
use Prim.Native.String.{[], ◌∷◌}
use evidra_agentgateway_brid.Prelude.{
  ◌<◌, String, ◌≡◌, refl, ap, ◌⊎◌, inl, inr, ◌==◌, nat_eq, if◌then◌else◌, length, arith, Bool-cases,
  text_cases,
}
use evidra_agentgateway_brid.Text.{codes}

-- The text up to its last slash, and that slash.
unfoldable pub dir_part : String → String
dir_part [] = []
dir_part (c ∷ s) =
    let rest = dir_part s in
    if rest == "" then (if nat_eq (code c) b'/' then c ∷ [] else []) else c ∷ rest

-- A path ends with its last slash, or the cut makes it shorter.
pub dir_part_cases :
    (s : String) → (dir_part s ≡ s) ⊎ (length (codes (dir_part s)) < length (codes s))
unfolding dir_part
dir_part_cases [] = inl refl
dir_part_cases (c ∷ s) = elim (text_cases (dir_part s) "") [
  | inl (t, e) ↦ elim (Bool-cases (nat_eq (code c) b'/')) [
    | inl slash ↦
        rw (t, slash)
          (elim (dir_part_cases s) [
            | inl p ↦ inl (ap (λ z. c ∷ z) (rw e at p))
            | inr p ↦ inr (omega arith)
          ])
    | inr other ↦ rw (t, other) (inr (omega arith))
  ]
  | inr (t, n) ↦
      rw t (elim (dir_part_cases s) [ inl p ↦ inl (ap (λ z. c ∷ z) p) | inr p ↦ inr (omega arith) ])
]
