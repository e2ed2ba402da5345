-- ===== src/Observation/JoinKey.antt =====
-- `JoinKey`: when it is empty, and that it tells the pairs of ids apart.
use Prim.Native.Char.{Char, code}
use text.Mathlib.TextLemmas.{nil-append, cons-append}
use evidra_agentgateway_brid.Prelude.{
  String, ◌≡◌, ◌≢◌, ◌↔◌, ◌⊎◌, inl, inr, refl, text_cases, eq_false, sym, ◌∙◌,
}
use evidra_agentgateway_brid.Text.{◌⧺◌, trim_space}
use evidra_agentgateway_brid.Text.Prefix.{Lacks, Lacks-trim_space, cut_unique}
use evidra_agentgateway_brid.Observation.{join_key}

join_key_nonblank :
    (t s : String)
    → trim_space t ≢ ""
    → trim_space s ≢ ""
    → join_key t s ≡ trim_space t ⧺ ("/" ⧺ trim_space s)
unfolding join_key
join_key_nonblank t s p q = rw (eq_false _ _ p, eq_false _ _ q)

append-ne-nil : (s t : String) → s ≢ "" → s ⧺ t ≢ ""
append-ne-nil String.[] t n e = n refl
append-ne-nil (String.◌∷◌ c s) t n e = cc (cons-append c s t)

-- The key is empty, which makes a signal unjoinable, exactly when an id is blank.
pub join_key-eq-nil_iff :
    (t s : String) → (join_key t s ≡ "") ↔ ((trim_space t ≡ "") ⊎ (trim_space s ≡ ""))
join_key-eq-nil_iff t s = elim (text_cases (trim_space t) "") [
  | inl (e, p) ↦ (λ _. inl p, λ _. unfold join_key in rw e)
  | inr (e, p) ↦ elim (text_cases (trim_space s) "") [
    | inl (f, q) ↦ (λ _. inr q, λ _. unfold join_key in rw (e, f))
    | inr (f, q) ↦ (
      λ h. absurd (append-ne-nil (trim_space t) _ p (sym (join_key_nonblank t s p q) ∙ h)),
      λ h. elim h [ inl a ↦ absurd (p a) | inr a ↦ absurd (q a) ],
    )
  ]
]

abbrev slash : Char
slash = Prim.Native.Char.char b'/' tt

-- Where no trace id holds a slash, as no hexadecimal id does, signals with one key have one trace id
-- and one span id, up to the spaces round them.
pub join_key_injective :
    (t s t' s' : String)
    → Lacks b'/' t
    → Lacks b'/' t'
    → join_key t s ≢ ""
    → join_key t s ≡ join_key t' s'
    → (trim_space t ≡ trim_space t') × (trim_space s ≡ trim_space s')
join_key_injective t s t' s' h h' n e =
    let p : (trim_space t ≢ "") = λ a. n ((join_key-eq-nil_iff t s).1 (inl a)) in
    let q : (trim_space s ≢ "") = λ a. n ((join_key-eq-nil_iff t s).1 (inr a)) in
    let n' : (join_key t' s' ≢ "") = λ a. n (e ∙ a) in
    let p' : (trim_space t' ≢ "") = λ a. n' ((join_key-eq-nil_iff t' s').1 (inl a)) in
    let q' : (trim_space s' ≢ "") = λ a. n' ((join_key-eq-nil_iff t' s').1 (inr a)) in
    cut_unique slash (trim_space t) (trim_space t') (trim_space s) (trim_space s')
      (Lacks-trim_space b'/' t h) (Lacks-trim_space b'/' t' h')
      (cc (
        e,
        join_key_nonblank t s p q,
        join_key_nonblank t' s' p' q',
        slash_append (trim_space s),
        slash_append (trim_space s'),
      ))
  where
    slash_append : (x : String) → ("/" ⧺ x) ≡ String.◌∷◌ slash x
    slash_append x = rw cons-append (rw nil-append)
