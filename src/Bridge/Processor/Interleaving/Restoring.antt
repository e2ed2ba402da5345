-- ===== src/Bridge/Processor/Interleaving/Restoring.antt =====
-- What folding the pending signals of a key back does: nothing that is held is dropped.
use evidra_agentgateway_brid.Prelude.{
  String, ◌≡◌, refl, true, false, ◌&&◌, ◌||◌, none, some, List, [], ◌∷◌, ◌==◌, arith, ◌⊎◌, inl, inr,
  Bool-cases, Option-cases, if◌then◌else◌, text_cases, ap,
}
use evidra_agentgateway_brid.Dict.{Dict, get, put, delete, has, flag}
use evidra_agentgateway_brid.Observation.{Time, Execution}
use evidra_agentgateway_brid.Bridge.Merge.{merge, member}
use evidra_agentgateway_brid.Bridge.State.{Processor}
use evidra_agentgateway_brid.Bridge.Processor.Interleaving.Frame.{restore_key-frame}
use evidra_agentgateway_brid.Bridge.Assembly.{
  AssembledExecution, fold_back, merge_pending_into_active, restore_key, restore_keys, restore_from,
  restore_reserved,
}
use evidra_agentgateway_brid.Bridge.Processor.Interleaving.Held.{
  kept, has-put, has-delete, has-some,
}

module _ (quote : String → String) where
  -- Folding back leaves the map alone, or sets the key in it.
  fold_back_cases :
      (key : String) (pending active : Dict Execution)
      → ((has key pending ≡ false) × (fold_back quote key pending active ≡ active))
        ⊎ ((has key pending ≡ true)
            × ((x : Execution) × (fold_back quote key pending active ≡ put key x active)))
  unfolding fold_back has
  fold_back_cases key pending active = elim (Option-cases (get key pending)) [
    | inl n ↦ inl (rw (n, has) refl, rw (n, fold_back) refl)
    | inr (ex, e) ↦
        let x : Execution = elim (get key active) [ none ↦ ex | some base ↦ merge quote base ex ] in
        inr (rw (e, has) refl, (x, rw (e, fold_back) refl))
  ]

  pub has-fold_back :
      (key k : String) (pending active : Dict Execution)
      → has k (fold_back quote key pending active) ≡ (has k active || (key == k && has key pending))
  has-fold_back key k pending active = elim (fold_back_cases key pending active) [
    | inl (n, e) ↦ rw (e, n) (ground arith)
    | inr (h, (x, e)) ↦ rw (e, h, has-put) (ground arith)
  ]

  pub restore_key_cases :
      (key : String) (p : Processor)
      → ((has key p.pending.first_seen ≡ false)
          × (restore_key quote key p ≡ record p { in_flight = delete key p.in_flight }))
        ⊎ ((seen : Time) × (get key p.pending.first_seen ≡ some seen)
            × ((restore_key quote key p).active.spans
                ≡ fold_back quote key p.pending.spans p.active.spans)
            × ((restore_key quote key p).active.logs
                ≡ fold_back quote key p.pending.logs p.active.logs)
            × ((restore_key quote key p).active.first_seen ≡ (
                if has key p.active.first_seen
                then p.active.first_seen
                else put key seen p.active.first_seen))
            × ((restore_key quote key p).pending.spans ≡ delete key p.pending.spans)
            × ((restore_key quote key p).pending.logs ≡ delete key p.pending.logs)
            × ((restore_key quote key p).pending.first_seen ≡ delete key p.pending.first_seen))
  unfolding restore_key merge_pending_into_active has
  restore_key_cases key p = elim (Option-cases (get key p.pending.first_seen)) [
    | inl n ↦ inl (rw (n, has) refl, rw (n, restore_key, merge_pending_into_active) refl)
    | inr (seen, e) ↦ inr (
      seen,
      e,
      rw (e, restore_key, merge_pending_into_active) refl,
      rw (e, restore_key, merge_pending_into_active) refl,
      rw (e, restore_key, merge_pending_into_active) refl,
      rw (e, restore_key, merge_pending_into_active) refl,
      rw (e, restore_key, merge_pending_into_active) refl,
      rw (e, restore_key, merge_pending_into_active) refl,
    )
  ]

  pub has-first_seen :
      (key k : String) (seen : Time) (d : Dict Time)
      → has k (if has key d then d else put key seen d) ≡ (has k d || key == k)
  has-first_seen key k seen d = elim (Bool-cases (has key d)) [
    | inl e ↦ rw e (elim (text_cases key k) [
      | inl (t, p) ↦ rw (t, ← p, e) refl
      | inr (f, n) ↦ rw f (ground arith)
    ])
    | inr e ↦ rw (e, has-put) (ground arith)
  ]

  kept_moved :
      (key k : String) (p : Processor)
      → has key p.pending.first_seen ≡ true
      → kept k p ≡ true
      → flag k p.emitted
          || ((((has k p.active.spans || (key == k && has key p.pending.spans))
                  || (has k p.active.logs || (key == k && has key p.pending.logs)))
                && (has k p.active.first_seen || key == k))
              || (((if key == k then false else has k p.pending.spans)
                    || (if key == k then false else has k p.pending.logs))
                  && (if key == k then false else has k p.pending.first_seen)))
        ≡ true
  kept_moved key k p g h = elim (text_cases key k) [
    | inl (t, e) ↦
        ground (arith, ap (λ j. has j p.pending.spans) e, ap (λ j. has j p.pending.logs) e)
    | inr (t, n) ↦ ground arith
  ]

  kept-restore_key :
      (key k : String) (p : Processor) → kept k p ≡ true → kept k (restore_key quote key p) ≡ true
  kept-restore_key key k p h = elim (restore_key_cases key p) [
    | inl (n, e) ↦ rw e h
    | inr (seen, g, s, l, f, s', l', f') ↦
        rw
          (
            (restore_key-frame quote key p).0,
            s,
            l,
            f,
            s',
            l',
            f',
            has-fold_back,
            has-fold_back,
            has-first_seen,
            has-delete,
            has-delete,
            has-delete,
          )
          (kept_moved key k p (has-some key seen p.pending.first_seen g) h)
  ]

  kept-restore_keys :
      (keys restored : List String) (k : String) (p : Processor)
      → kept k p ≡ true
      → kept k (restore_keys quote keys restored p).1 ≡ true
  unfolding restore_keys
  kept-restore_keys [] restored k p h = h
  kept-restore_keys (key ∷ rest) restored k p h = elim (Bool-cases (member key restored)) [
    | inl e ↦ rw e (kept-restore_keys rest restored k p h)
    | inr e ↦ rw e (
        kept-restore_keys rest (key ∷ restored) k (restore_key quote key p)
          (kept-restore_key key k p h))
  ]

  kept-restore_from :
      (records : List AssembledExecution) (restored : List String) (k : String) (p : Processor)
      → kept k p ≡ true
      → kept k (restore_from quote records restored p) ≡ true
  unfolding restore_from
  kept-restore_from [] restored k p h = h
  kept-restore_from (a ∷ rest) restored k p h =
      let (restored', q) = restore_keys quote a.consumed_keys restored p in
      kept-restore_from rest restored' k q (kept-restore_keys a.consumed_keys restored k p h)

  pub kept-restore_reserved :
      (records : List AssembledExecution) (k : String) (p : Processor)
      → kept k p ≡ true
      → kept k (restore_reserved quote records p) ≡ true
  unfolding restore_reserved
  kept-restore_reserved records k p h = kept-restore_from records [] k p h
