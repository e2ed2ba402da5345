-- ===== src/Bridge/Processor/Interleaving/Ownership.antt =====
-- Every snapshot of an assembly consumes its own key; and predicates on lists of snapshots.
use mathlib.Core.Path.{subst}
use mathlib.Core.Option.{some-injective}
use evidra_agentgateway_brid.Prelude.{
  String, ◌≡◌, refl, sym, Bool, List, [], ◌∷◌, arith, inl, inr, Elem, All, Bool-cases, Option-cases,
  some,
}
use evidra_agentgateway_brid.Dict.{Dict, get, has}
use evidra_agentgateway_brid.Text.Order.{str_leb}
use evidra_agentgateway_brid.Observation.{Time, Execution}
use evidra_agentgateway_brid.Bridge.State.{Buffers, Processor}
use evidra_agentgateway_brid.Bridge.Assembly.{
  AssembledExecution, assemble_span, assemble_key, snapshots, insert_by_key, sort_by_key,
  is_claimed,
}
use evidra_agentgateway_brid.Bridge.Processor.{assemble_out}

-- A snapshot consumes its own key.
abbrev pub Owns : AssembledExecution → Type 0
Owns a = Elem a.key a.consumed_keys

assemble_span-Owns :
    (quote : String → String) (b : Buffers) (key : String) (span : Execution) (both : Bool)
    → Owns (assemble_span quote b key span both)
unfolding assemble_span
assemble_span-Owns quote b key span both = ground arith

pub assemble_key-Owns :
    (quote : String → String) (b : Buffers) (key : String) (a : AssembledExecution)
    → assemble_key quote b key ≡ some a
    → Owns a
unfolding assemble_key
assemble_key-Owns quote b key a e = elim (Option-cases (get key b.spans)) [
  | inl n ↦ elim (Option-cases (get key b.logs)) [
    | inl m ↦ ground arith
    | inr (log, m) ↦ ground arith
  ]
  | inr (span, m) ↦
      subst Owns (some-injective _ _ (rw (m, assemble_key) at e))
        (assemble_span-Owns quote b key span (has key b.logs))
]

snapshots-Owns :
    (quote : String → String) (b : Buffers) (child_of : Dict String) (keys : List String)
    → All Owns (snapshots quote b child_of keys)
unfolding snapshots
snapshots-Owns quote b child_of [] = tt
snapshots-Owns quote b child_of (key ∷ rest) = elim (Bool-cases (is_claimed child_of key)) [
  | inl e ↦ rw e (snapshots-Owns quote b child_of rest)
  | inr e ↦ elim (Option-cases (assemble_key quote b key)) [
    | inl n ↦ rw (e, n) (snapshots-Owns quote b child_of rest)
    | inr (a, s) ↦
        rw (e, s) (assemble_key-Owns quote b key a s, snapshots-Owns quote b child_of rest)
  ]
]

module _ (P : AssembledExecution → Type 0) where
  insert_by_key-All :
      (a : AssembledExecution) (l : List AssembledExecution)
      → P a
      → All P l
      → All P (insert_by_key a l)
  unfolding insert_by_key
  insert_by_key-All a [] p h = (p, tt)
  insert_by_key-All a (b ∷ l) p h = elim (Bool-cases (str_leb a.key b.key)) [
    | inl e ↦ rw e (p, h)
    | inr e ↦ rw e (h.0, insert_by_key-All a l p h.1)
  ]

  pub sort_by_key-All : (l : List AssembledExecution) → All P l → All P (sort_by_key l)
  unfolding sort_by_key
  sort_by_key-All [] h = tt
  sort_by_key-All (a ∷ l) h = insert_by_key-All a (sort_by_key l) h.0 (sort_by_key-All l h.1)

pub assemble_out-Owns :
    (quote : String → String) (cutoff : Time) (order : List (String × Execution)) (p : Processor)
    → All Owns (assemble_out quote cutoff order p)
unfolding assemble_out
assemble_out-Owns quote cutoff order p = sort_by_key-All Owns _ (snapshots-Owns quote _ _ _)

pub All-map {ℓ κ} :
    {P : AssembledExecution → Type ℓ} {Q : AssembledExecution → Type κ}
    → ((a : AssembledExecution) → P a → Q a)
    → (l : List AssembledExecution) → All P l
    → All Q l
All-map f [] h = tt
All-map f (a ∷ l) h = (f a h.0, All-map f l h.1)

pub All-Elem : (P : String → Type 0) (l : List String) → ((k : String) → Elem k l → P k) → All P l
All-Elem P [] f = tt
All-Elem P (k ∷ l) f = (f k (inl refl), All-Elem P l (λ j m. f j (inr m)))

pub Elem-All : (P : String → Type 0) (k : String) (l : List String) → All P l → Elem k l → P k
Elem-All P k [] h m = absurd m
Elem-All P k (j ∷ l) h (inl e) = subst P (sym e) h.0
Elem-All P k (j ∷ l) h (inr m) = Elem-All P k l h.1 m
