-- ===== src/Bridge/Processor/Complete.antt =====
-- What `Flush` leaves: nothing, unless the sink fails.
pub mod Snapshots
pub mod Landing
pub mod Everything
pub mod Taken
pub mod Assembled
use mathlib.Core.Path.{subst}
use mathlib.Core.Option.{some-injective, none-ne-some}
use evidra_agentgateway_brid.Prelude.{
  String, ◌≡◌, refl, sym, ap, ◌∙◌, Bool, true, false, ◌||◌, not, Option, none, some, List, [], ◌∷◌,
  ◌++◌, arith, ◌⊎◌, inl, inr, Elem, Bool-cases, Option-cases, text_cases, eq_iff, List-cases,
  Elem-append_right,
}
use evidra_agentgateway_brid.Prelude.Int.{ℤ, pos, is_zero}
use evidra_agentgateway_brid.Text.Order.{str_leb}
use evidra_agentgateway_brid.Text.Sort.{sort_strings-Elem}
use evidra_agentgateway_brid.Dict.{Dict, get, has, flag, keys, Elem-of_has}
use evidra_agentgateway_brid.Observation.{Time, Execution}
use evidra_agentgateway_brid.Bridge.State.{Buffers, Processor}
use evidra_agentgateway_brid.Bridge.Assembly.{
  AssembledExecution, ready_from, ready_keys, names_parent, parent_key, merge_parent, assemble_log,
  assemble_span, assemble_key, snapshots, insert_by_key, sort_by_key, children, is_claimed,
  acknowledge, acknowledge_keys, acknowledge_key, restore_reserved,
}
use evidra_agentgateway_brid.Bridge.Processor.{
  Sink, Outcome, write_to, settle, emit, emit_all, assemble_out, reserve_out, assemble, flush,
}
use evidra_agentgateway_brid.Bridge.Processor.Interleaving.Held.{has-some, has-delete}
use evidra_agentgateway_brid.Bridge.Processor.Interleaving.Ownership.{assemble_key-Owns}
use evidra_agentgateway_brid.Bridge.Processor.Interleaving.Coherent.{
  Visits, IsCoherent, own_key, children-Named, assemble_out-IsCoherent,
}
use evidra_agentgateway_brid.Bridge.Processor.Interleaving.Retention.{IsConsumed}
use evidra_agentgateway_brid.Bridge.Processor.Interleaving.Sound.{
  IsSound, has_data, acknowledge-IsSound,
}
use evidra_agentgateway_brid.Bridge.Processor.Interleaving.Reserved.{reserve_out-IsSound}
use evidra_agentgateway_brid.Bridge.Processor.Interleaving.Flight.{IsLanded}
use evidra_agentgateway_brid.Text.{◌⧺◌}
use evidra_agentgateway_brid.Bridge.Processor.Emit.{
  emit_all_skip, emit_all_accepted, emit_all_failed,
}
use evidra_agentgateway_brid.Bridge.Processor.Interleaving.Sequential.{write_cases}
use evidra_agentgateway_brid.Bridge.Processor.Interleaving.{World, idle, Reach}
use evidra_agentgateway_brid.Bridge.Processor.Interleaving.Once.{start}
use evidra_agentgateway_brid.Bridge.Processor.Interleaving.WellFormed.{processor_IsSound}
use evidra_agentgateway_brid.Bridge.Processor.Interleaving.Quiet.{
  Visited, idle_is_quiet, nothing_todo, IsAccounted, skipped, acknowledged, claimed,
}
use evidra_agentgateway_brid.Bridge.Processor.Complete.Snapshots.{
  IsCleared, nothing_ready, HasNoChain, flush_takes,
}

acknowledge_key-IsCleared :
    (key k : String) (p : Processor)
    → (k ≡ key) ⊎ IsCleared p k
    → IsCleared (acknowledge_key key p) k
unfolding acknowledge_key
acknowledge_key-IsCleared key k p h =
    rw has-delete (elim h [ inl e ↦ ground (arith, eq_iff key k) | inr f ↦ ground arith ])

acknowledge_keys-IsCleared :
    (keys : List String) (k : String) (p : Processor)
    → Elem k keys ⊎ IsCleared p k
    → IsCleared (acknowledge_keys keys p) k
unfolding acknowledge_keys
acknowledge_keys-IsCleared [] k p (inl m) = absurd m
acknowledge_keys-IsCleared [] k p (inr h) = h
acknowledge_keys-IsCleared (key ∷ rest) k p h =
    acknowledge_keys-IsCleared rest k (acknowledge_key key p) (elim h [
      | inl (inl e) ↦ inr (acknowledge_key-IsCleared key k p (inl e))
      | inl (inr m) ↦ inl m
      | inr f ↦ inr (acknowledge_key-IsCleared key k p (inr f))
    ])

acknowledge-IsCleared :
    (a : AssembledExecution) (k : String) (p : Processor)
    → Elem k a.consumed_keys ⊎ IsCleared p k
    → IsCleared (acknowledge a p) k
unfolding acknowledge
acknowledge-IsCleared a k p h = acknowledge_keys-IsCleared a.consumed_keys k p h

-- A key that was emitted is buffered nowhere.
emitted-IsCleared :
    (k : String) (p : Processor) → IsSound k p → flag k p.emitted ≡ true → IsCleared p k
emitted-IsCleared k p h e = ground (arith, h.emitted_gone)

IsConsumed-by :
    (k : String) (a : AssembledExecution) (l : List AssembledExecution)
    → Elem a l
    → Elem k a.consumed_keys
    → IsConsumed k l
IsConsumed-by k a [] m n = absurd m
IsConsumed-by k a (b ∷ l) (inl e) n = inl (rw (← e) n)
IsConsumed-by k a (b ∷ l) (inr m) n = inr (IsConsumed-by k a l m n)

-- The active generation holds nothing under the key.
abbrev pub IsGone : String → Processor → Type 0
IsGone k p =
    (has k p.active.spans ≡ false)
    × (has k p.active.logs ≡ false)
    × (has k p.active.first_seen ≡ false)

cleared-IsGone : (k : String) (p : Processor) → IsSound k p → IsCleared p k → IsGone k p
cleared-IsGone k p h c = (ground (arith, h.active_whole), ground (arith, h.active_whole), c)

module _ (quote : String → String) {S : Type 0} (sink : Option (Sink S)) where
  -- The sink has given this error for a record.
  abbrev pub HasRefused : String → Type 0
  HasRefused e = (t u : S) × (ex : Execution) × (write_to sink t ex ≡ (some e, u))

  abbrev pub IsFailure : Outcome S → Type 0
  IsFailure o = (e : String) × (o.err ≡ some ("sink: " ⧺ e)) × HasRefused e

  -- What the snapshots consume is buffered no more.
  abbrev Clears : List AssembledExecution → Processor → Outcome S → Type 0
  Clears l p o =
      (o.err ≡ none)
      × ((k : String) → IsSound k o.processor)
      × ((k : String) → IsConsumed k l ⊎ IsCleared p k → IsCleared o.processor k)

  -- One snapshot more, where what it consumes is buffered no more behind it.
  one_more :
      (a : AssembledExecution) (rest : List AssembledExecution) (p q : Processor) (o : Outcome S)
      → ((k : String) → Elem k a.consumed_keys ⊎ IsCleared p k → IsCleared q k)
      → Clears rest q o ⊎ IsFailure o
      → Clears (a ∷ rest) p o ⊎ IsFailure o
  one_more a rest p q o g (inr f) = inr f
  one_more a rest p q o g (inl (x, y, z)) = inl (
    x,
    y,
    λ k m. z k (elim m [
      | inl (inl n) ↦ inr (g k (inl n))
      | inl (inr n) ↦ inl n
      | inr f ↦ inr (g k (inr f))
    ]),
  )

  -- The loop over the snapshots.
  emit_all-Clears :
      (l : List AssembledExecution) (p : Processor) (s : S)
      → ((k : String) → IsSound k p)
      → IsAccounted p l
      → Clears l p (emit_all quote sink l p s) ⊎ IsFailure (emit_all quote sink l p s)
  emit_all-Clears [] p s h d =
      unfold emit_all in inl (refl, h, λ k m. elim m [ inl n ↦ absurd n | inr f ↦ f ])
  emit_all-Clears (a ∷ rest) p s h d = elim (Bool-cases (flag a.key p.emitted)) [
    | inl e ↦ rw (emit_all_skip quote sink a rest p s e) (
        one_more a rest p p (emit_all quote sink rest p s)
          (λ k m. elim m [
            | inl n ↦ emitted-IsCleared k p (h k) (d.done a (inl refl) e k n)
            | inr f ↦ f
          ])
          (emit_all-Clears rest p s h (skipped p a rest h e d)))
    | inr e ↦ elim (write_cases (write_to sink s a.ex)) [
      | inl (t, w) ↦ rw (emit_all_accepted quote sink a rest p s t e w) (
          one_more a rest p (acknowledge a p) (emit_all quote sink rest (acknowledge a p) t)
            (λ k. acknowledge-IsCleared a k p)
            (emit_all-Clears rest (acknowledge a p) t (λ k. acknowledge-IsSound a k p (h k))
              (acknowledged p a rest d)))
      | inr (x, t, w) ↦
          rw (emit_all_failed quote sink a rest p s x t e w) (inr (x, refl, (s, t, a.ex, w)))
    ]
  ]

  pub flush_takes_all :
      (order : List (String × Execution)) (p : Processor) (s : S)
      → ((k : String) → IsSound k p)
      → ((k : String) → IsLanded p k)
      → Visits order p.active.spans
      → HasNoChain order
      → (let o = flush quote sink order p s in
          ((o.err ≡ none) × ((k : String) → IsGone k o.processor)) ⊎ IsFailure o)
  unfolding flush assemble reserve_out
  flush_takes_all order p s h l v nc = elim (List-cases (ready_keys (pos 0) p)) [
    | inl e ↦ rw (e, assemble) (inl (refl, λ k. cleared-IsGone k p (h k) (nothing_ready k p e)))
    | inr (key, rest, e) ↦
        let out = assemble_out quote (pos 0) order p in
        let taken : (k : String) → IsConsumed k out ⊎ IsCleared (reserve_out out p) k = (λ k.
          elim (Bool-cases (has k p.active.first_seen)) [
            | inl t ↦
                let (a, m, n) = flush_takes quote order p k h v nc t in
                inl (IsConsumed-by k a out m n)
            | inr f ↦ inr f
          ]) in
        rw (e, assemble)
          (elim (emit_all-Clears out (reserve_out out p) s
            (λ k. reserve_out-IsSound quote (pos 0) order k p (h k))
            (claimed quote (pos 0) order p h v (nothing_todo p l))) [
              | inl (x, y, z) ↦ inl (x, λ k. cleared-IsGone k _ (y k) (z k (taken k)))
              | inr f ↦ inr f
            ])
  ]

  -- Where the range of every assembly over the buffered spans visits exactly those and no span that
  -- claims a parent is claimed itself, whatever has happened before: a flush between two assemblies
  -- succeeds and leaves nothing in the active generation, where no key has a span, a log or a
  -- first-seen time, or it reports an error that the sink has given for a record.
  pub flush_leaves_nothing :
      (Admitted : Execution → Type 0) (max_wait : ℤ) (w : World)
      (r : Reach quote Admitted (start max_wait) w) (order : List (String × Execution)) (s : S)
      → Visited quote Admitted r
      → w.control ≡ idle
      → Visits order w.processor.active.spans
      → HasNoChain order
      → (let o = flush quote sink order w.processor s in
          ((o.err ≡ none) × ((k : String) → IsGone k o.processor))
          ⊎ ((e : String) × (o.err ≡ some ("sink: " ⧺ e)) × HasRefused e))
  flush_leaves_nothing Admitted max_wait w r order s d c v nc =
      flush_takes_all order w.processor s (λ k. processor_IsSound quote Admitted max_wait w k r)
        (λ k. (idle_is_quiet quote Admitted max_wait w r k d c).0) v nc
