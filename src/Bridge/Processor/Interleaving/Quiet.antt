-- ===== src/Bridge/Processor/Interleaving/Quiet.antt =====
-- Between two assemblies nothing is in flight, so that nothing waits in the pending generation.
use mathlib.Core.Path.{subst}
use evidra_agentgateway_brid.Prelude.{
  String, ◌≡◌, refl, true, false, List, [], ◌∷◌, arith, ◌⊎◌, inl, inr, Elem,
}
use evidra_agentgateway_brid.Prelude.Int.{ℤ}
use evidra_agentgateway_brid.Dict.{get, has, flag}
use evidra_agentgateway_brid.Observation.{Time, Execution}
use evidra_agentgateway_brid.Bridge.State.{Processor, new_processor, set_observer}
use evidra_agentgateway_brid.Bridge.Assembly.{
  AssembledExecution, acknowledge, count_failure, restore_reserved,
}
use evidra_agentgateway_brid.Bridge.Processor.{assemble_out, reserve_out}
use evidra_agentgateway_brid.Bridge.Processor.Interleaving.{
  World, Control, idle, running, writing, failed, Step, count, observe, receive, claim, skip, begin,
  succeed, fail, roll_back, finish, Reach, here, next,
}
use evidra_agentgateway_brid.Bridge.Processor.Interleaving.Frame.{
  buffer-emitted, acknowledge-IsEmitted,
}
use evidra_agentgateway_brid.Bridge.Processor.Interleaving.Ownership.{assemble_out-Owns, Owns}
use evidra_agentgateway_brid.Bridge.Processor.Interleaving.Held.{emitted-acknowledge}
use evidra_agentgateway_brid.Bridge.Processor.Interleaving.Once.{start}
use evidra_agentgateway_brid.Bridge.Processor.Interleaving.Retention.{IsConsumed}
use evidra_agentgateway_brid.Bridge.Processor.Interleaving.Sound.{IsSound, has_data}
use evidra_agentgateway_brid.Bridge.Processor.Interleaving.Reserved.{
  Consumes, assemble_out-Consumes,
}
use evidra_agentgateway_brid.Bridge.Processor.Interleaving.Coherent.{
  Visits, IsCoherent, Elem_All, assemble_out-IsCoherent,
}
use evidra_agentgateway_brid.Bridge.Processor.Interleaving.Flight.{
  IsLanded, buffer-in_flight, acknowledge-IsLanded, restore_reserved-IsLanded, reserve-IsConsumed,
}
use evidra_agentgateway_brid.Bridge.Processor.Interleaving.WellFormed.{processor_IsSound}

-- The snapshots that the running assembly has still to write or to give back.
abbrev todo : Control → List AssembledExecution
todo idle = []
todo (running l) = l
todo (writing a rest) = a ∷ rest
todo (failed l) = l

-- What is in flight is consumed by those snapshots, and one whose key has been emitted is done with.
pub record IsAccounted (p : Processor) (l : List AssembledExecution) : Type 0 where
  pub in_flight : (k : String) → IsConsumed k l ⊎ IsLanded p k
  pub coherent : IsCoherent l
  pub done :
      (a : AssembledExecution)
      → Elem a l
      → flag a.key p.emitted ≡ true
      → (k : String) → Elem k a.consumed_keys
      → flag k p.emitted ≡ true

landed : (k : String) (p : Processor) → IsSound k p → flag k p.emitted ≡ true → IsLanded p k
landed k p h e = ground (arith, h.emitted_gone)

not_emitted :
    (k : String) (p : Processor)
    → IsSound k p
    → has_data k p.active ≡ true
    → flag k p.emitted ≡ false
not_emitted k p h e = ground (arith, h.emitted_gone, h.active_whole)

-- The keys of an assembly's snapshots have not been emitted.
fresh_out :
    (quote : String → String) (cutoff : Time) (order : List (String × Execution)) (p : Processor)
    → ((k : String) → IsSound k p)
    → (a : AssembledExecution) → Elem a (assemble_out quote cutoff order p)
    → flag a.key p.emitted ≡ false
fresh_out quote cutoff order p s a m =
    let out = assemble_out quote cutoff order p in
    let o = Elem_All Owns a out (assemble_out-Owns quote cutoff order p) m in
    let c = Elem_All (Consumes p.active) a out (assemble_out-Consumes quote cutoff order p) m in
    not_emitted a.key p (s a.key) (c a.key o)

-- A step that keeps what is in flight, what is emitted and the snapshots.
same_flight :
    (p q : Processor) (l : List AssembledExecution)
    → q.in_flight ≡ p.in_flight
    → q.emitted ≡ p.emitted
    → IsAccounted p l
    → IsAccounted q l
same_flight p q l i e h = record {
  in_flight = rw i h.in_flight;
  coherent = h.coherent;
  done = rw e h.done;
}

pub nothing_todo : (p : Processor) → ((k : String) → IsLanded p k) → IsAccounted p []
nothing_todo p h = record {
  in_flight = λ k. inr (h k);
  coherent = λ a b m n. absurd m;
  done = λ a m. absurd m;
}

pub skipped :
    (p : Processor) (a : AssembledExecution) (rest : List AssembledExecution)
    → ((k : String) → IsSound k p)
    → flag a.key p.emitted ≡ true
    → IsAccounted p (a ∷ rest)
    → IsAccounted p rest
skipped p a rest s f h = record {
  in_flight = λ k. elim (h.in_flight k) [
    | inl (inl m) ↦ inr (landed k p (s k) (h.done a (inl refl) f k m))
    | inl (inr n) ↦ inl n
    | inr g ↦ inr g
  ];
  coherent = λ b c m n. h.coherent b c (inr m) (inr n);
  done = λ b m. h.done b (inr m);
}

pub acknowledged :
    (p : Processor) (a : AssembledExecution) (rest : List AssembledExecution)
    → IsAccounted p (a ∷ rest)
    → IsAccounted (acknowledge a p) rest
acknowledged p a rest h = record {
  in_flight = λ k. elim (h.in_flight k) [
    | inl (inl m) ↦ inr (acknowledge-IsLanded a k p (inl m))
    | inl (inr n) ↦ inl n
    | inr g ↦ inr (acknowledge-IsLanded a k p (inr g))
  ];
  coherent = λ b c m n. h.coherent b c (inr m) (inr n);
  done = λ b m f k n. acknowledge-IsEmitted a k p (elim (emitted-acknowledge a b.key p f) [
    | inl o ↦ inl (h.coherent a b (inl refl) (inr m) o k n)
    | inr o ↦ inr (h.done b (inr m) o k n)
  ]);
}

pub claimed :
    (quote : String → String) (cutoff : Time) (order : List (String × Execution)) (p : Processor)
    → ((k : String) → IsSound k p)
    → Visits order p.active.spans
    → IsAccounted p []
    → (let out = assemble_out quote cutoff order p in IsAccounted (reserve_out out p) out)
unfolding reserve_out
claimed quote cutoff order p s v h =
    let out = assemble_out quote cutoff order p in
    record {
      in_flight = λ k. elim (h.in_flight k) [
        | inl n ↦ absurd n
        | inr f ↦ reserve-IsConsumed out p.in_flight k f
      ];
      coherent = assemble_out-IsCoherent quote cutoff order p v;
      done = λ a m f. absurd (cc (f, fresh_out quote cutoff order p s a m));
    }

module _ (quote : String → String) (Admitted : Execution → Type 0) where
  -- A claim visits the spans that are buffered when it runs.
  abbrev pub Visiting : (w u : World) → Step quote Admitted w u → Type 0
  Visiting w u (count logs spans ignored e) = Unit
  Visiting w u (observe id version e) = Unit
  Visiting w u (receive ex signal now ok e) = Unit
  Visiting w u (claim cutoff order c e) = Visits order w.processor.active.spans
  Visiting w u (skip a rest c f e) = Unit
  Visiting w u (begin a rest c f e) = Unit
  Visiting w u (succeed a rest c e) = Unit
  Visiting w u (fail a rest c e) = Unit
  Visiting w u (roll_back records c e) = Unit
  Visiting w u (finish c e) = Unit

  -- Every claim of the run does.
  abbrev pub Visited : {w u : World} → Reach quote Admitted w u → Type 0
  Visited here = Unit
  Visited (next {u} {v} r st) = Visited r × Visiting u v st

  Accounts : World → Type 0
  Accounts w = IsAccounted w.processor (todo w.control)

  at_control :
      (w : World) (c : Control) → w.control ≡ c → Accounts w → IsAccounted w.processor (todo c)
  unfolding Accounts
  at_control w c e h = subst (λ z. IsAccounted w.processor (todo z)) e h

  Step-Accounts :
      (w u : World) (st : Step quote Admitted w u)
      → Visiting w u st
      → ((k : String) → IsSound k w.processor)
      → Accounts w
      → Accounts u
  unfolding Accounts set_observer count_failure
  Step-Accounts w u (count logs spans ignored e) v s h =
      rw e (same_flight w.processor _ (todo w.control) refl refl h)
  Step-Accounts w u (observe id version e) v s h =
      rw e (same_flight w.processor _ (todo w.control) refl refl h)
  Step-Accounts w u (receive ex signal now ok e) v s h = rw e (
      same_flight w.processor _ (todo w.control) (buffer-in_flight quote ex signal now w.processor)
        (buffer-emitted quote ex signal now w.processor) h)
  Step-Accounts w u (claim cutoff order c e) v s h =
      rw e (claimed quote cutoff order w.processor s v (at_control w idle c h))
  Step-Accounts w u (skip a rest c f e) v s h =
      rw e (skipped w.processor a rest s f (at_control w (running (a ∷ rest)) c h))
  Step-Accounts w u (begin a rest c f e) v s h = rw e (at_control w (running (a ∷ rest)) c h)
  Step-Accounts w u (succeed a rest c e) v s h =
      rw e (acknowledged w.processor a rest (at_control w (writing a rest) c h))
  Step-Accounts w u (fail a rest c e) v s h =
      rw e (same_flight w.processor _ (a ∷ rest) refl refl (at_control w (writing a rest) c h))
  Step-Accounts w u (roll_back records c e) v s h = rw e (
      nothing_todo (restore_reserved quote records w.processor) (λ k.
        restore_reserved-IsLanded quote records w.processor k
          ((at_control w (failed records) c h).in_flight k)))
  Step-Accounts w u (finish c e) v s h = rw e (at_control w (running []) c h)

  start-Accounts : (max_wait : ℤ) → Accounts (start max_wait)
  unfolding Accounts new_processor flag get
  start-Accounts max_wait = nothing_todo (new_processor max_wait) (λ k. refl)

  Reach-Accounts :
      (max_wait : ℤ) {w : World} (r : Reach quote Admitted (start max_wait) w)
      → Visited r
      → Accounts w
  Reach-Accounts max_wait here v = start-Accounts max_wait
  Reach-Accounts max_wait (next {u} {v} r st) (t, x) =
      Step-Accounts u v st x (λ k. processor_IsSound quote Admitted max_wait u k r)
        (Reach-Accounts max_wait r t)

  pub quiet :
      (k : String) (p : Processor)
      → IsSound k p
      → IsLanded p k
      → (flag k p.in_flight ≡ false)
        × (has k p.pending.spans ≡ false)
        × (has k p.pending.logs ≡ false)
        × (has k p.pending.first_seen ≡ false)
  quiet k p h l = (
    l,
    ground (arith, h.pending_whole, h.pending_in_flight),
    ground (arith, h.pending_whole, h.pending_in_flight),
    ground (arith, h.pending_in_flight),
  )

  -- Where the range of every assembly over the buffered spans visits exactly those: at every moment at
  -- which no assembly runs, no key is in flight, and no key has a span, a log or a first-seen time in
  -- the pending generation.
  pub idle_is_quiet :
      (max_wait : ℤ) (w : World) (r : Reach quote Admitted (start max_wait) w) (k : String)
      → Visited r
      → w.control ≡ idle
      → (flag k w.processor.in_flight ≡ false)
        × (has k w.processor.pending.spans ≡ false)
        × (has k w.processor.pending.logs ≡ false)
        × (has k w.processor.pending.first_seen ≡ false)
  idle_is_quiet max_wait w r k v c =
      elim ((at_control w idle c (Reach-Accounts max_wait r v)).in_flight k) [
        | inl n ↦ absurd n
        | inr l ↦ quiet k w.processor (processor_IsSound quote Admitted max_wait w k r) l
      ]
