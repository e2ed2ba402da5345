-- ===== src/Bridge/Merge/Signals.antt =====
-- `union`: which signals a merged record was seen from.
use mathlib.Core.Path.{subst}
use evidra_agentgateway_brid.Prelude.{
  String, ◌≡◌, ◌≢◌, ◌↔◌, ◌⊎◌, inl, inr, refl, sym, ◌∙◌, true, false, List, [], ◌∷◌, ◌++◌, ◌==◌,
  ◌||◌, arith, Elem, Distinct, Elem-append, Elem-append_left, Elem-append_right, Bool-cases,
  text_cases, eq_iff,
}
use evidra_agentgateway_brid.Text.Sort.{
  IsSorted, sort_strings-IsSorted, Elem-sort_strings, sort_strings-Elem, sort_strings-Distinct,
}
use evidra_agentgateway_brid.Bridge.Merge.{member, union_loop, union}

pub member_iff : (v : String) (l : List String) → (member v l ≡ true) ↔ Elem v l
unfolding member
member_iff v [] = (λ h. cc, λ m. absurd m)
member_iff v (w ∷ l) = elim (text_cases v w) [
  | inl (e, p) ↦ (λ _. inl p, λ _. rw e)
  | inr (e, n) ↦ (
    λ h. inr ((member_iff v l).0 (rw e at h)),
    λ m. rw e (elim m [ inl p ↦ absurd (n p) | inr q ↦ (member_iff v l).1 q ]),
  )
]

-- What the loop takes: the texts that are not empty and were not seen.
abbrev Fresh : String → List String → List String → Type 0
Fresh v seen l = (v ≢ "") × (¬ Elem v seen) × Elem v l

union_loop_sound : (v : String) (seen l : List String) → Elem v (union_loop seen l) → Fresh v seen l
unfolding union_loop
union_loop_sound v seen [] m = absurd m
union_loop_sound v seen (w ∷ l) m = elim (Bool-cases (w == "" || member w seen)) [
  | inl e ↦ let (n, f, r) = union_loop_sound v seen l (rw e at m) in (n, f, inr r)
  | inr e ↦ taken e (λ p. union_loop_sound v (w ∷ seen) l p) (rw e at m)
]
  where
    taken :
        (w == "" || member w seen) ≡ false
        → (Elem v (union_loop (w ∷ seen) l) → Fresh v (w ∷ seen) l)
        → (v ≡ w) ⊎ Elem v (union_loop (w ∷ seen) l)
        → Fresh v seen (w ∷ l)
    taken e rest (inl p) =
        (λ q. ground (arith, eq_iff w ""), λ f. ground (arith, (member_iff v seen).1 f), inl p)
    taken e rest (inr r) = let (n, f, k) = rest r in (n, λ s. f (inr s), inr k)

blocked_or_seen :
    (w : String) (seen : List String)
    → (w == "" || member w seen) ≡ true
    → w ≢ ""
    → ¬ Elem w seen
    → ⊥
blocked_or_seen w seen e n f = elim (Bool-cases (member w seen)) [
  | inl m ↦ f ((member_iff w seen).0 m)
  | inr m ↦ ground (arith, eq_iff w "")
]

union_loop_complete :
    (v : String) (seen l : List String) → Fresh v seen l → Elem v (union_loop seen l)
unfolding union_loop
union_loop_complete v seen [] (n, f, m) = m
union_loop_complete v seen (w ∷ l) (n, f, m) = elim (Bool-cases (w == "" || member w seen)) [
  | inl e ↦ rw e (union_loop_complete v seen l (n, f, later e m))
  | inr e ↦ elim (text_cases v w) [
    | inl (_, p) ↦ rw e (inl p)
    | inr (_, p) ↦ rw e (
        inr (
          union_loop_complete v (w ∷ seen) l (
            n,
            λ k. elim k [ inl q ↦ p q | inr q ↦ f q ],
            elim m [ inl q ↦ absurd (p q) | inr q ↦ q ],
          )))
  ]
]
  where
    later : (w == "" || member w seen) ≡ true → (v ≡ w) ⊎ Elem v l → Elem v l
    later e (inl p) =
        absurd
          (blocked_or_seen w seen e (λ q. n (p ∙ q)) (λ q. f (subst (λ x. Elem x seen) (sym p) q)))
    later e (inr q) = q

union_loop-Distinct : (seen l : List String) → Distinct (union_loop seen l)
unfolding union_loop
union_loop-Distinct seen [] = tt
union_loop-Distinct seen (w ∷ l) = elim (Bool-cases (w == "" || member w seen)) [
  | inl e ↦ rw e (union_loop-Distinct seen l)
  | inr e ↦
      rw e (λ m. (union_loop_sound w (w ∷ seen) l m).1 (inl refl), union_loop-Distinct (w ∷ seen) l)
]

-- The union is sorted, holds no text twice, and holds exactly the texts of both lists that are not
-- empty.
pub union_lem :
    (a b : List String)
    → IsSorted (union a b)
      × Distinct (union a b)
      × ((v : String) → Elem v (union a b) ↔ ((v ≢ "") × (Elem v a ⊎ Elem v b)))
unfolding union
union_lem a b = (
  sort_strings-IsSorted _,
  sort_strings-Distinct _ (union_loop-Distinct [] (a ++ b)),
  λ v. (
    λ m.
        let (n, _, k) = union_loop_sound v [] (a ++ b) (Elem-sort_strings v _ m) in
        (n, Elem-append v a b k),
    λ (n, k). sort_strings-Elem v _ (
        union_loop_complete v [] (a ++ b) (
          n,
          λ x. x,
          elim k [ inl x ↦ Elem-append_left v a b x | inr x ↦ Elem-append_right v a b x ],
        )),
  ),
)
