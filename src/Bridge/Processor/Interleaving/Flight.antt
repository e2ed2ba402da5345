-- ===== src/Bridge/Processor/Interleaving/Flight.antt =====
-- What is in flight after each operation.
use evidra_agentgateway_brid.Prelude.{
  String, ◌≡◌, refl, Bool, false, List, [], ◌∷◌, arith, ◌⊎◌, inl, inr, Elem, Bool-cases, eq_iff,
  text_cases,
}
use evidra_agentgateway_brid.Dict.{Dict, flag, flag-delete}
use evidra_agentgateway_brid.Observation.{Time, Execution, join_key}
use evidra_agentgateway_brid.Bridge.Merge.{member}
use evidra_agentgateway_brid.Bridge.Merge.Signals.{member_iff}
use evidra_agentgateway_brid.Bridge.State.{Processor, buffer_key, buffer}
use evidra_agentgateway_brid.Bridge.Assembly.{
  AssembledExecution, acknowledge_key, acknowledge_keys, acknowledge, restore_key, restore_keys,
  restore_from, restore_reserved, set_all, reserve,
}
use evidra_agentgateway_brid.Bridge.Processor.Interleaving.Reserved.{flag-set_all}
use evidra_agentgateway_brid.Bridge.Processor.Interleaving.Sound.{restore_key-in_flight}
use evidra_agentgateway_brid.Bridge.Processor.Interleaving.Retention.{IsConsumed}

abbrev pub IsLanded : Processor → String → Type 0
IsLanded p k = flag k p.in_flight ≡ false

module _ (quote : String → String) (ex : Execution) (signal : String) (now : Time) where
  buffer_key-in_flight :
      (key : String) (p : Processor)
      → (buffer_key quote key ex signal now p).in_flight ≡ p.in_flight
  unfolding buffer_key
  buffer_key-in_flight key p = ground arith

  pub buffer-in_flight : (p : Processor) → (buffer quote ex signal now p).in_flight ≡ p.in_flight
  unfolding buffer
  buffer-in_flight p = elim (text_cases (join_key ex.trace_id ex.span_id) "") [
    | inl (e, t) ↦ rw e refl
    | inr (e, t) ↦ rw e (buffer_key-in_flight (join_key ex.trace_id ex.span_id) p)
  ]

acknowledge_keys-IsLanded :
    (keys : List String) (k : String) (p : Processor)
    → Elem k keys ⊎ IsLanded p k
    → IsLanded (acknowledge_keys keys p) k
unfolding acknowledge_keys
acknowledge_keys-IsLanded [] k p (inl m) = absurd m
acknowledge_keys-IsLanded [] k p (inr h) = h
acknowledge_keys-IsLanded (key ∷ rest) k p h =
    acknowledge_keys-IsLanded rest k (acknowledge_key key p) (elim h [
      | inl (inl e) ↦ inr (ground (arith, flag-delete key k p.in_flight, eq_iff key k))
      | inl (inr m) ↦ inl m
      | inr f ↦ inr (ground (arith, flag-delete key k p.in_flight))
    ])

-- An acknowledged record's keys are not in flight any more, and no key gets into flight.
pub acknowledge-IsLanded :
    (a : AssembledExecution) (k : String) (p : Processor)
    → Elem k a.consumed_keys ⊎ IsLanded p k
    → IsLanded (acknowledge a p) k
unfolding acknowledge
acknowledge-IsLanded a k p h = acknowledge_keys-IsLanded a.consumed_keys k p h

module _ (quote : String → String) where
  restore_key-IsLanded :
      (key k : String) (p : Processor)
      → (k ≡ key) ⊎ IsLanded p k
      → IsLanded (restore_key quote key p) k
  restore_key-IsLanded key k p h =
      rw (restore_key-in_flight quote key k p)
        (elim h [ inl e ↦ ground (arith, eq_iff key k) | inr f ↦ ground arith ])

  -- The keys of the set `restored` have landed.
  AllLanded : List String → Processor → Type 0
  AllLanded restored p = (k : String) → Elem k restored → IsLanded p k

  restore_keys-IsLanded :
      (keys restored : List String) (p : Processor)
      → AllLanded restored p
      → (let (restored', q) = restore_keys quote keys restored p in
          AllLanded restored' q × ((k : String) → Elem k keys ⊎ IsLanded p k → IsLanded q k))
  unfolding restore_keys AllLanded
  restore_keys-IsLanded [] restored p h = (h, λ k m. elim m [ inl n ↦ absurd n | inr f ↦ f ])
  restore_keys-IsLanded (key ∷ rest) restored p h = elim (Bool-cases (member key restored)) [
    | inl e ↦
        let (i, j) = restore_keys-IsLanded rest restored p h in
        rw e (
          i,
          λ k m. elim m [
            | inl (inl q) ↦ j k (inr (h k (rw q ((member_iff key restored).0 e))))
            | inl (inr n) ↦ j k (inl n)
            | inr f ↦ j k (inr f)
          ],
        )
    | inr e ↦
        let h' : AllLanded (key ∷ restored) (restore_key quote key p) =
          (λ k m. restore_key-IsLanded key k p (elim m [ inl q ↦ inl q | inr n ↦ inr (h k n) ])) in
        let (i, j) = restore_keys-IsLanded rest (key ∷ restored) (restore_key quote key p) h' in
        rw e (
          i,
          λ k m. elim m [
            | inl (inl q) ↦ j k (inr (restore_key-IsLanded key k p (inl q)))
            | inl (inr n) ↦ j k (inl n)
            | inr f ↦ j k (inr (restore_key-IsLanded key k p (inr f)))
          ],
        )
  ]

  restore_from-IsLanded :
      (records : List AssembledExecution) (restored : List String) (p : Processor) (k : String)
      → AllLanded restored p
      → IsConsumed k records ⊎ IsLanded p k
      → IsLanded (restore_from quote records restored p) k
  unfolding restore_from
  restore_from-IsLanded [] restored p k h (inl m) = absurd m
  restore_from-IsLanded [] restored p k h (inr f) = f
  restore_from-IsLanded (a ∷ rest) restored p k h m =
      let (restored', q) = restore_keys quote a.consumed_keys restored p in
      let (i, j) = restore_keys-IsLanded a.consumed_keys restored p h in
      restore_from-IsLanded rest restored' q k i (elim m [
        | inl (inl n) ↦ inr (j k (inl n))
        | inl (inr n) ↦ inl n
        | inr f ↦ inr (j k (inr f))
      ])

  -- The rollback lands the keys of the records that it is given.
  pub restore_reserved-IsLanded :
      (records : List AssembledExecution) (p : Processor) (k : String)
      → IsConsumed k records ⊎ IsLanded p k
      → IsLanded (restore_reserved quote records p) k
  unfolding restore_reserved AllLanded
  restore_reserved-IsLanded records p k m = restore_from-IsLanded records [] p k (λ j n. absurd n) m

-- What gets into flight is consumed by a snapshot.
pub reserve-IsConsumed :
    (out : List AssembledExecution) (d : Dict Bool) (k : String)
    → flag k d ≡ false
    → IsConsumed k out ⊎ (flag k (reserve out d) ≡ false)
unfolding reserve
reserve-IsConsumed [] d k f = inr f
reserve-IsConsumed (a ∷ rest) d k f = elim (Bool-cases (flag k (set_all a.consumed_keys d))) [
  | inl e ↦ elim ((flag-set_all a.consumed_keys k d).0 e) [
    | inl m ↦ inl (inl m)
    | inr g ↦ inr (absurd (cc (f, g)))
  ]
  | inr e ↦ elim (reserve-IsConsumed rest (set_all a.consumed_keys d) k e) [
    | inl m ↦ inl (inr m)
    | inr g ↦ inr g
  ]
]
