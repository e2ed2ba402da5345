-- ===== src/Text/Sort.antt =====
-- `sort.Strings`: the same texts, in order.
use evidra_agentgateway_brid.Prelude.{
  String, ◌≡◌, sym, ◌⊎◌, inl, inr, true, false, List, [], ◌∷◌, if◌then◌else◌, Elem, Distinct,
  Bool-cases,
}
use evidra_agentgateway_brid.Text.Order.{str_leb, str_leb-total}

insert : String → List String → List String
insert s [] = s ∷ []
insert s (t ∷ l) = if str_leb s t then s ∷ t ∷ l else t ∷ insert s l

-- `sort.Strings`. The result does not depend on the algorithm, since equal texts are one text.
unfoldable pub sort_strings : List String → List String
unfolding insert
sort_strings [] = []
sort_strings (s ∷ l) = insert s (sort_strings l)

-- Each text is at most the one behind it.
abbrev pub IsSorted : List String → Type 0
IsSorted [] = Unit
IsSorted (s ∷ []) = Unit
IsSorted (s ∷ t ∷ l) = (str_leb s t ≡ true) × IsSorted (t ∷ l)

insert-IsSorted : (s : String) (l : List String) → IsSorted l → IsSorted (insert s l)
unfolding insert
insert-IsSorted s [] h = tt
insert-IsSorted s (t ∷ []) h = elim (Bool-cases (str_leb s t)) [
  | inl e ↦ rw e (e, tt)
  | inr e ↦ rw e (str_leb-total s t e, tt)
]
insert-IsSorted s (t ∷ u ∷ l) h = elim (Bool-cases (str_leb s t)) [
  | inl e ↦ rw e (e, h)
  | inr e ↦
      rw e (behind (Bool-cases (str_leb s u)) (str_leb-total s t e) (insert-IsSorted s (u ∷ l) h.1))
]
  where
    behind :
        (str_leb s u ≡ true) ⊎ (str_leb s u ≡ false)
        → str_leb t s ≡ true
        → IsSorted (insert s (u ∷ l))
        → IsSorted (t ∷ insert s (u ∷ l))
    behind (inl q) p i = rw q (p, rw q at i)
    behind (inr q) p i = rw q (h.0, rw q at i)

-- Sorting gives a sorted list.
pub sort_strings-IsSorted : (l : List String) → IsSorted (sort_strings l)
unfolding sort_strings
sort_strings-IsSorted [] = tt
sort_strings-IsSorted (s ∷ l) = insert-IsSorted s (sort_strings l) (sort_strings-IsSorted l)

Elem-insert : (a s : String) (l : List String) → Elem a (insert s l) → (a ≡ s) ⊎ Elem a l
unfolding insert
Elem-insert a s [] m = m
Elem-insert a s (t ∷ l) m = elim (Bool-cases (str_leb s t)) [
  | inl e ↦ rw e at m
  | inr e ↦ shift (λ p. Elem-insert a s l p) (rw e at m)
]
  where
    shift :
        (Elem a (insert s l) → (a ≡ s) ⊎ Elem a l)
        → (a ≡ t) ⊎ Elem a (insert s l)
        → (a ≡ s) ⊎ ((a ≡ t) ⊎ Elem a l)
    shift later (inl p) = inr (inl p)
    shift later (inr p) = elim (later p) [ inl q ↦ inl q | inr q ↦ inr (inr q) ]

insert-Elem : (a s : String) (l : List String) → (a ≡ s) ⊎ Elem a l → Elem a (insert s l)
unfolding insert
insert-Elem a s [] m = m
insert-Elem a s (t ∷ l) m = elim (Bool-cases (str_leb s t)) [
  | inl e ↦ rw e m
  | inr e ↦ rw e (shift (λ p. insert-Elem a s l p) m)
]
  where
    shift :
        ((a ≡ s) ⊎ Elem a l → Elem a (insert s l))
        → (a ≡ s) ⊎ ((a ≡ t) ⊎ Elem a l)
        → (a ≡ t) ⊎ Elem a (insert s l)
    shift later (inl p) = inr (later (inl p))
    shift later (inr (inl p)) = inl p
    shift later (inr (inr p)) = inr (later (inr p))

-- Sorting keeps the elements.
pub Elem-sort_strings : (a : String) (l : List String) → Elem a (sort_strings l) → Elem a l
unfolding sort_strings
Elem-sort_strings a [] m = m
Elem-sort_strings a (s ∷ l) m = elim (Elem-insert a s (sort_strings l) m) [
  | inl e ↦ inl e
  | inr e ↦ inr (Elem-sort_strings a l e)
]

pub sort_strings-Elem : (a : String) (l : List String) → Elem a l → Elem a (sort_strings l)
unfolding sort_strings
sort_strings-Elem a [] m = m
sort_strings-Elem a (s ∷ l) (inl e) = insert-Elem a s (sort_strings l) (inl e)
sort_strings-Elem a (s ∷ l) (inr m) =
    insert-Elem a s (sort_strings l) (inr (sort_strings-Elem a l m))

insert-Distinct : (s : String) (l : List String) → ¬ Elem s l → Distinct l → Distinct (insert s l)
unfolding insert
insert-Distinct s [] n d = (n, tt)
insert-Distinct s (t ∷ l) n (f, d) = elim (Bool-cases (str_leb s t)) [
  | inl e ↦ rw e (n, (f, d))
  | inr e ↦ rw e (
    λ m. elim (Elem-insert t s l m) [ inl p ↦ n (inl (sym p)) | inr p ↦ f p ],
    insert-Distinct s l (λ m. n (inr m)) d,
  )
]

-- Sorting brings no text in twice.
pub sort_strings-Distinct : (l : List String) → Distinct l → Distinct (sort_strings l)
unfolding sort_strings
sort_strings-Distinct [] d = tt
sort_strings-Distinct (s ∷ l) (n, d) =
    insert-Distinct s (sort_strings l) (λ m. n (Elem-sort_strings s l m))
      (sort_strings-Distinct l d)
