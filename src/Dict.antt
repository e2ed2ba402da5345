-- ===== src/Dict.antt =====
-- Go's `map[string]V`. Entries are found by key; a key has at most one entry if the map was made by
-- `put` and `delete`. What a `range` over a map visits is in `entries`; its order is an argument of
-- the code that ranges.
use mathlib.Core.Path.{subst}
use mathlib.Core.Option.{some-injective, none-ne-some}
use evidra_agentgateway_brid.Prelude.{
  ℕ, String, ◌≡◌, sym, ap, Distinct, Bool, true, false, Option, none, some, List, [], ◌∷◌, arith,
  ◌==◌, eq_iff, map, Elem, inl, inr, text_cases, Bool-cases, if◌then◌else◌,
}

abbrev pub Dict : Type 0 → Type 0
Dict V = List (String × V)

module _ {V : Type 0} where
  -- `v, ok := m[k]`
  unfoldable pub get : String → Dict V → Option V
  get k [] = none
  get k ((j, v) ∷ d) = if j == k then some v else get k d

  -- `delete(m, k)`
  unfoldable pub delete : String → Dict V → Dict V
  delete k [] = []
  delete k ((j, v) ∷ d) = let rest = delete k d in if j == k then rest else (j, v) ∷ rest

  -- `m[k] = v`
  unfoldable pub put : String → V → Dict V → Dict V
  put k v d = (k, v) ∷ delete k d

  -- The `ok` of `_, ok := m[k]`.
  unfoldable pub has : String → Dict V → Bool
  has k d = elim (get k d) [ none ↦ false | some _ ↦ true ]

  abbrev pub keys : Dict V → List String
  keys = map (λ (k, _). k)

  pub get-delete :
      (k j : String) (d : Dict V) → get j (delete k d) ≡ (if k == j then none else get j d)
  unfolding get delete
  get-delete k j [] = ground arith
  get-delete k j ((i, v) ∷ d) = ground (arith, get-delete k j d, eq_iff i k, eq_iff i j, eq_iff k j)

  pub get-put :
      (k j : String) (v : V) (d : Dict V) → get j (put k v d) ≡ (if k == j then some v else get j d)
  unfolding get put
  get-put k j v d = ground (arith, get-delete k j d)

  -- `has` of a key is membership in the keys.
  pub has_of_Elem : (k : String) (d : Dict V) → Elem k (keys d) → has k d ≡ true
  unfolding has get
  has_of_Elem k [] m = absurd m
  has_of_Elem k ((j, v) ∷ d) (inl p) = ground (arith, eq_iff j k)
  has_of_Elem k ((j, v) ∷ d) (inr m) = ground (arith, has_of_Elem k d m)

  pub Elem-of_has : (k : String) (d : Dict V) → has k d ≡ true → Elem k (keys d)
  unfolding has get
  Elem-of_has k [] h = cc
  Elem-of_has k ((j, v) ∷ d) h = elim (text_cases j k) [
    | inl (e, p) ↦ inl (ground arith)
    | inr (e, n) ↦ inr (Elem-of_has k d (ground arith))
  ]

  -- An entry is what `get` gives, where no key stands twice.
  pub get-Elem :
      (spans : Dict V) (k : String) (sp : V) → get k spans ≡ some sp → Elem ((k, sp)) spans
  unfolding get
  get-Elem [] k sp e = absurd (none-ne-some sp e)
  get-Elem ((j, v) ∷ d) k sp e = elim (text_cases j k) [
    | inl (t, p) ↦ inl (cc (rw (t, get) at e, p))
    | inr (t, n) ↦ inr (get-Elem d k sp (rw (t, get) at e))
  ]

  pub Elem-keys : (d : Dict V) (k : String) (sp : V) → Elem ((k, sp)) d → Elem k (keys d)
  Elem-keys [] k sp m = m
  Elem-keys ((j, v) ∷ d) k sp (inl e) = inl (ap (λ z. z.0) e)
  Elem-keys ((j, v) ∷ d) k sp (inr m) = inr (Elem-keys d k sp m)

  pub Elem-get :
      (spans : Dict V) (k : String) (sp : V)
      → Distinct (keys spans)
      → Elem ((k, sp)) spans
      → get k spans ≡ some sp
  unfolding get
  Elem-get [] k sp u m = absurd m
  Elem-get ((j, v) ∷ d) k sp u (inl e) = elim (text_cases j k) [
    | inl (t, p) ↦ rw (t, get) (ap (λ z. some (z.1)) (sym e))
    | inr (t, n) ↦ absurd (n (ap (λ z. z.0) (sym e)))
  ]
  Elem-get ((j, v) ∷ d) k sp u (inr m) = elim (text_cases j k) [
    | inl (t, p) ↦ absurd (u.0 (rw p (Elem-keys d k sp m)))
    | inr (t, n) ↦ rw (t, get) (Elem-get d k sp u.1 m)
  ]

  Elem-keys-delete : (k j : String) (d : Dict V) → Elem j (keys (delete k d)) → Elem j (keys d)
  unfolding delete
  Elem-keys-delete k j [] m = m
  Elem-keys-delete k j ((i, v) ∷ d) m = elim (Bool-cases (i == k)) [
    | inl e ↦ inr (Elem-keys-delete k j d (rw e at m))
    | inr e ↦ elim (rw e at m) [ inl p ↦ inl p | inr n ↦ inr (Elem-keys-delete k j d n) ]
  ]

  delete-Lacks : (k : String) (d : Dict V) → ¬ Elem k (keys (delete k d))
  unfolding delete
  delete-Lacks k [] m = m
  delete-Lacks k ((i, v) ∷ d) m = elim (text_cases i k) [
    | inl (t, p) ↦ delete-Lacks k d (rw t at m)
    | inr (t, n) ↦ elim (rw t at m) [ inl p ↦ n (sym p) | inr q ↦ delete-Lacks k d q ]
  ]

  delete-Distinct : (k : String) (d : Dict V) → Distinct (keys d) → Distinct (keys (delete k d))
  unfolding delete
  delete-Distinct k [] u = tt
  delete-Distinct k ((i, v) ∷ d) u = elim (Bool-cases (i == k)) [
    | inl e ↦ rw e (delete-Distinct k d u.1)
    | inr e ↦ rw e ((λ m. u.0 (Elem-keys-delete k i d m)), delete-Distinct k d u.1)
  ]

  -- Setting a key leaves no key twice.
  pub put-Distinct :
      (k : String) (v : V) (d : Dict V) → Distinct (keys d) → Distinct (keys (put k v d))
  unfolding put
  put-Distinct k v d u = (delete-Lacks k d, delete-Distinct k d u)

module _ {V : Type 0} (P : String → V → Type 0) where
  -- Every value of the map has the property.
  abbrev pub Values : Dict V → Type 0
  Values [] = Unit
  Values ((k, v) ∷ d) = P k v × Values d

  pub delete-Values : (k : String) (d : Dict V) → Values d → Values (delete k d)
  unfolding delete
  delete-Values k [] h = tt
  delete-Values k ((j, v) ∷ d) h = elim (Bool-cases (j == k)) [
    | inl e ↦ rw e (delete-Values k d h.1)
    | inr e ↦ rw e (h.0, delete-Values k d h.1)
  ]

  pub put-Values : (k : String) (v : V) (d : Dict V) → P k v → Values d → Values (put k v d)
  unfolding put
  put-Values k v d p h = (p, delete-Values k d h)

  pub get-Values : (k : String) (d : Dict V) (v : V) → Values d → get k d ≡ some v → P k v
  unfolding get
  get-Values k [] v h e = absurd (none-ne-some v e)
  get-Values k ((j, w) ∷ d) v h e = elim (text_cases j k) [
    | inl (t, p) ↦ subst (λ z. P z v) p (subst (P j) (some-injective _ _ (rw (t, get) at e)) h.0)
    | inr (t, n) ↦ get-Values k d v h.1 (rw (t, get) at e)
  ]

pub ruleset dict_laws = (get-delete, get-put)

-- `m[k]` of a `map[string]bool`: false where the key is missing.
unfoldable pub flag : String → Dict Bool → Bool
flag k d = elim (get k d) [ none ↦ false | some b ↦ b ]

-- `m[k]` of a `map[string]int`: zero where the key is missing.
unfoldable pub counter : String → Dict ℕ → ℕ
counter k d = elim (get k d) [ none ↦ 0 | some n ↦ n ]

pub flag-put :
    (k j : String) (b : Bool) (d : Dict Bool)
    → flag j (put k b d) ≡ (if k == j then b else flag j d)
unfolding flag
flag-put k j b d = ground (arith, get-put k j b d)

pub flag-delete :
    (k j : String) (d : Dict Bool) → flag j (delete k d) ≡ (if k == j then false else flag j d)
unfolding flag
flag-delete k j d = ground (arith, get-delete k j d)
