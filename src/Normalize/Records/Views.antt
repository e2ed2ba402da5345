-- ===== src/Normalize/Records/Views.antt =====
-- Attributes that differ at most in what a payload attribute or an HTTP status holds, and the maps that
-- are made from them.
use evidra_agentgateway_brid.Prelude.{
  String, ◌≡◌, refl, ◌⊎◌, inl, inr, true, false, Option, none, some, List, [], ◌∷◌, ◌++◌, arith,
  ◌==◌, if◌then◌else◌, Option-cases, text_cases,
}
use evidra_agentgateway_brid.Dict.{Dict, put, get-put}
use evidra_agentgateway_brid.Telemetry.{Floats, AnyValue, KeyValue, Attributes}
use evidra_agentgateway_brid.Normalize.Attributes.{
  value_at, text_member, any_value_string, put_attribute, attribute_loop, attribute_map,
}
use evidra_agentgateway_brid.Normalize.Verdict.{raw_payload_keys}

-- The payload attributes, and the HTTP status under the names that `logCompleted` looks at.
abbrev pub opaque_keys : List String
opaque_keys = raw_payload_keys ++ "http.status" ∷ "http.status_code" ∷ []

-- The same values under every name but the opaque ones, and under those the same presence.
pub record SameView (d e : Dict String) : Type 0 where
  pub value : (k : String) → text_member k opaque_keys ≡ false → value_at k d ≡ value_at k e
  pub presence : (k : String) → (value_at k d == "") ≡ (value_at k e == "")

value_at-put :
    (k j v : String) (d : Dict String)
    → value_at j (put k v d) ≡ (if k == j then v else value_at j d)
unfolding value_at
value_at-put k j v d = ground (arith, get-put k j v d)

put-SameView :
    (k v w : String) (d e : Dict String)
    → (v ≡ w) ⊎ ((text_member k opaque_keys ≡ true) × ((v == "") ≡ (w == "")))
    → SameView d e
    → SameView (put k v d) (put k w e)
put-SameView k v w d e h s = record {
  value = λ j n.
      rw (value_at-put k j v d, value_at-put k j w e)
        (elim (text_cases k j) [
          | inl (t, p) ↦ rw t (elim h [ inl q ↦ q | inr (m, _) ↦ absurd (cc (p, m, n)) ])
          | inr (t, _) ↦ rw t (s.value j n)
        ]);
  presence = λ j.
      rw (value_at-put k j v d, value_at-put k j w e)
        (elim (text_cases k j) [
          | inl (t, _) ↦ rw t (elim h [ inl q ↦ rw q | inr (_, q) ↦ q ])
          | inr (t, _) ↦ rw t (s.presence j)
        ]);
}

module _ (floats : Floats) where
  open floats use {Double}

  -- Two attributes that differ at most in the content of an opaque value, which both have or both lack.
  pub data SameEntry (a b : Option (KeyValue Double)) : Type 0 where
    same : a ≡ b → SameEntry a b
    opaque :
        (k : String) (v w : AnyValue Double)
        → text_member k opaque_keys ≡ true
        → (any_value_string floats v == "") ≡ (any_value_string floats w == "")
        → a ≡ some (record { key = k; value = some v })
        → b ≡ some (record { key = k; value = some w })
        → SameEntry a b

  abbrev pub SameButOpaque : Attributes Double → Attributes Double → Type 0
  SameButOpaque [] [] = Unit
  SameButOpaque [] (b ∷ bs) = ⊥
  SameButOpaque (a ∷ as₁) [] = ⊥
  SameButOpaque (a ∷ as₁) (b ∷ bs) = SameEntry a b × SameButOpaque as₁ bs

  put_attribute-same :
      (a : Option (KeyValue Double)) (d e : Dict String)
      → SameView d e
      → SameView (put_attribute floats a d) (put_attribute floats a e)
  unfolding put_attribute
  put_attribute-same none d e s = s
  put_attribute-same (some kv) d e s = elim (Option-cases kv.value) [
    | inl n ↦ rw n s
    | inr (v, p) ↦ rw p (put-SameView kv.key _ _ d e (inl refl) s)
  ]

  put_attribute-SameView :
      (a b : Option (KeyValue Double)) (d e : Dict String)
      → SameEntry a b
      → SameView d e
      → SameView (put_attribute floats a d) (put_attribute floats b e)
  put_attribute-SameView a b d e (same p) s = rw p (put_attribute-same b d e s)
  put_attribute-SameView a b d e (opaque k v w m n p q) s =
      rw (p, q) (unfold put_attribute in put-SameView k _ _ d e (inr (m, n)) s)

  attribute_loop-SameView :
      (l m : Attributes Double) (d e : Dict String)
      → SameButOpaque l m
      → SameView d e
      → SameView (attribute_loop floats l d) (attribute_loop floats m e)
  unfolding attribute_loop
  attribute_loop-SameView [] [] d e h s = s
  attribute_loop-SameView [] (b ∷ bs) d e h s = absurd h
  attribute_loop-SameView (a ∷ as₁) [] d e h s = absurd h
  attribute_loop-SameView (a ∷ as₁) (b ∷ bs) d e (h, k) s =
      attribute_loop-SameView as₁ bs _ _ k (put_attribute-SameView a b d e h s)

  pub attribute_map-SameView :
      (l m : Attributes Double)
      → SameButOpaque l m
      → SameView (attribute_map floats l) (attribute_map floats m)
  unfolding attribute_map
  attribute_map-SameView l m h =
      attribute_loop-SameView l m [] [] h (record { value = λ k n. refl; presence = λ k. refl })
