-- ===== src/Bridge/Processor/Interleaving/Frame.antt =====
-- What the steps leave alone, the set of emitted keys and the counters of emitted records, and how a
-- written record moves these.
use evidra_agentgateway_brid.Prelude.{
  ℕ, ◌+◌, String, ◌≡◌, refl, ◌∙◌, true, List, [], ◌∷◌, arith, ◌⊎◌, inl, inr, eq_iff, Elem,
  Bool-cases, Bool, false, ◌||◌, ◌&&◌, not, ltb, length, if◌then◌else◌,
}
use evidra_agentgateway_brid.Dict.{flag, flag-put}
use evidra_agentgateway_brid.Observation.{
  Correlation, correlated, unattributed, ambiguous, Time, Execution,
}
use evidra_agentgateway_brid.Bridge.Merge.{member}
use evidra_agentgateway_brid.Bridge.State.{Stats, Processor, buffer_key, buffer}
use evidra_agentgateway_brid.Bridge.Assembly.{
  AssembledExecution, acknowledge_key, acknowledge_keys, acknowledge, count_emitted, restore_key,
  restore_keys, restore_from, restore_reserved,
}

abbrev pub is_correlated : AssembledExecution → Bool
is_correlated a = elim a.ex.correlation [ correlated ↦ true | _ ↦ false ]

abbrev pub is_unattributed : AssembledExecution → Bool
is_unattributed a = elim a.ex.correlation [ unattributed ↦ true | _ ↦ false ]

abbrev pub is_ambiguous : AssembledExecution → Bool
is_ambiguous a = elim a.ex.correlation [ ambiguous ↦ true | _ ↦ false ]

-- The record was merged from signals of more than one kind.
abbrev pub is_merged : AssembledExecution → Bool
is_merged a = a.both || ltb 1 (length a.ex.seen_from)

abbrev pub is_log_only : AssembledExecution → Bool
is_log_only a = not (is_merged a) && a.loggy

abbrev pub is_span_only : AssembledExecution → Bool
is_span_only a = not (is_merged a) && not a.loggy

-- How many of the records pass the test.
abbrev pub how_many : (AssembledExecution → Bool) → List AssembledExecution → ℕ
how_many f [] = 0
how_many f (a ∷ l) = if f a then how_many f l + 1 else how_many f l

abbrev pub suppressed_by : List AssembledExecution → ℕ
suppressed_by [] = 0
suppressed_by (a ∷ l) = suppressed_by l + a.parents_suppressed

-- The counters of emission say of these records how many there are, how many of each correlation and of
-- each kind, and how many parents they stand for.
pub record IsTally (l : List AssembledExecution) (s : Stats) : Type 0 where
  pub total : s.emitted ≡ length l
  pub correlated : s.correlated ≡ how_many is_correlated l
  pub unattributed : s.unattributed ≡ how_many is_unattributed l
  pub ambiguous : s.ambiguous ≡ how_many is_ambiguous l
  pub merged : s.emitted_merged ≡ how_many is_merged l
  pub log_only : s.emitted_log_only ≡ how_many is_log_only l
  pub span_only : s.emitted_span_only ≡ how_many is_span_only l
  pub parents_suppressed : s.parents_suppressed ≡ suppressed_by l

-- Counters that have not moved still say so.
pub same-IsTally :
    (l : List AssembledExecution) (s t : Stats)
    → IsTally l s
    → t.emitted ≡ s.emitted
    → t.correlated ≡ s.correlated
    → t.unattributed ≡ s.unattributed
    → t.ambiguous ≡ s.ambiguous
    → t.emitted_merged ≡ s.emitted_merged
    → t.emitted_log_only ≡ s.emitted_log_only
    → t.emitted_span_only ≡ s.emitted_span_only
    → t.parents_suppressed ≡ s.parents_suppressed
    → IsTally l t
same-IsTally l s t h a b c d e f g i = record {
  total = a ∙ h.total;
  correlated = b ∙ h.correlated;
  unattributed = c ∙ h.unattributed;
  ambiguous = d ∙ h.ambiguous;
  merged = e ∙ h.merged;
  log_only = f ∙ h.log_only;
  span_only = g ∙ h.span_only;
  parents_suppressed = i ∙ h.parents_suppressed;
}

module _ (quote : String → String) (ex : Execution) (signal : String) (now : Time) where
  buffer_key-emitted :
      (key : String) (p : Processor) → (buffer_key quote key ex signal now p).emitted ≡ p.emitted
  unfolding buffer_key
  buffer_key-emitted key p = ground arith

  pub buffer-emitted : (p : Processor) → (buffer quote ex signal now p).emitted ≡ p.emitted
  unfolding buffer
  buffer-emitted p = ground arith

  pub buffer-IsTally :
      (l : List AssembledExecution) (p : Processor)
      → IsTally l p.stats
      → IsTally l (buffer quote ex signal now p).stats
  unfolding buffer
  buffer-IsTally l p h = ground arith

module _ (quote : String → String) where
  pub restore_key-frame :
      (key : String) (p : Processor)
      → ((restore_key quote key p).emitted ≡ p.emitted)
        × ((restore_key quote key p).stats ≡ p.stats)
  unfolding restore_key
  restore_key-frame key p = ground arith

  restore_keys-frame :
      (keys restored : List String) (p : Processor)
      → ((restore_keys quote keys restored p).1.emitted ≡ p.emitted)
        × ((restore_keys quote keys restored p).1.stats ≡ p.stats)
  unfolding restore_keys
  restore_keys-frame [] restored p = (refl, refl)
  restore_keys-frame (key ∷ rest) restored p = elim (Bool-cases (member key restored)) [
    | inl e ↦ rw e (restore_keys-frame rest restored p)
    | inr e ↦
        let (i, j) = restore_keys-frame rest (key ∷ restored) (restore_key quote key p) in
        let (k, l) = restore_key-frame key p in rw e (i ∙ k, j ∙ l)
  ]

  restore_from-frame :
      (records : List AssembledExecution) (restored : List String) (p : Processor)
      → ((restore_from quote records restored p).emitted ≡ p.emitted)
        × ((restore_from quote records restored p).stats ≡ p.stats)
  unfolding restore_from
  restore_from-frame [] restored p = (refl, refl)
  restore_from-frame (a ∷ rest) restored p =
      let (restored', q) = restore_keys quote a.consumed_keys restored p in
      let (i, j) = restore_from-frame rest restored' q in
      let (k, l) = restore_keys-frame a.consumed_keys restored p in (i ∙ k, j ∙ l)

  -- The rollback changes neither the emitted keys nor a counter.
  pub restore_reserved-frame :
      (records : List AssembledExecution) (p : Processor)
      → ((restore_reserved quote records p).emitted ≡ p.emitted)
        × ((restore_reserved quote records p).stats ≡ p.stats)
  unfolding restore_reserved
  restore_reserved-frame records p = restore_from-frame records [] p

abbrev pub IsEmitted : Processor → String → Type 0
IsEmitted p k = flag k p.emitted ≡ true

acknowledge_keys-IsEmitted :
    (keys : List String) (k : String) (p : Processor)
    → Elem k keys ⊎ IsEmitted p k
    → IsEmitted (acknowledge_keys keys p) k
unfolding acknowledge_keys
acknowledge_keys-IsEmitted [] k p (inl m) = absurd m
acknowledge_keys-IsEmitted [] k p (inr h) = h
acknowledge_keys-IsEmitted (key ∷ rest) k p h =
    acknowledge_keys-IsEmitted rest k (acknowledge_key key p) (elim h [
      | inl (inl e) ↦ inr (ground (arith, flag-put key k true p.emitted, eq_iff key k))
      | inl (inr m) ↦ inl m
      | inr f ↦ inr (ground (arith, flag-put key k true p.emitted))
    ])

-- A written record's keys are emitted, and no key stops being so.
pub acknowledge-IsEmitted :
    (a : AssembledExecution) (k : String) (p : Processor)
    → Elem k a.consumed_keys ⊎ IsEmitted p k
    → IsEmitted (acknowledge a p) k
unfolding acknowledge
acknowledge-IsEmitted a k p h = acknowledge_keys-IsEmitted a.consumed_keys k p h

acknowledge_keys-IsTally :
    (l : List AssembledExecution) (keys : List String) (p : Processor)
    → IsTally l p.stats
    → IsTally l (acknowledge_keys keys p).stats
unfolding acknowledge_keys
acknowledge_keys-IsTally l [] p h = h
acknowledge_keys-IsTally l (key ∷ rest) p h =
    acknowledge_keys-IsTally l rest (acknowledge_key key p) (ground arith)

Correlation-cases : (c : Correlation) → (c ≡ correlated) ⊎ ((c ≡ unattributed) ⊎ (c ≡ ambiguous))
Correlation-cases correlated = inl refl
Correlation-cases unattributed = inr (inl refl)
Correlation-cases ambiguous = inr (inr refl)

count_emitted-IsTally :
    (l : List AssembledExecution) (a : AssembledExecution) (s : Stats)
    → IsTally l s
    → IsTally (a ∷ l) (count_emitted a s)
unfolding count_emitted
count_emitted-IsTally l a s h = elim (Correlation-cases a.ex.correlation) [
  | inl e ↦ rw e (ground arith)
  | inr (inl e) ↦ rw e (ground arith)
  | inr (inr e) ↦ rw e (ground arith)
]

pub acknowledge-IsTally :
    (l : List AssembledExecution) (a : AssembledExecution) (p : Processor)
    → IsTally l p.stats
    → IsTally (a ∷ l) (acknowledge a p).stats
unfolding acknowledge
acknowledge-IsTally l a p h =
    count_emitted-IsTally l a (acknowledge_keys a.consumed_keys p).stats
      (acknowledge_keys-IsTally l a.consumed_keys p h)
