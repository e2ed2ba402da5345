-- ===== src/Normalize/Records/Times.antt =====
-- The times of a span: nothing wraps around where the clock is sane, and no duration leaves the range
-- of the milliseconds of an `int64` of nanoseconds.
use mathlib.Core.Path.{subst}
use evidra_agentgateway_brid.Prelude.{
  ℕ, ◌+◌, ◌-◌, ◌/◌, ◌^◌, ◌≤◌, ◌<◌, ◌≡◌, ◌&&◌, not, some, inl, inr, arith, Bool-cases, if◌then◌else◌,
}
use evidra_agentgateway_brid.Prelude.Int.{
  ℤ, pos, negsuc, ◌≤ℤ◌, ◌+ℤ◌, ◌-ℤ◌, is_zero, int64_of_uint64, max_int64, min_int64, sub_time,
  milliseconds,
}
use evidra_agentgateway_brid.Observation.{Execution}
use evidra_agentgateway_brid.Telemetry.{Floats, Span}
use evidra_agentgateway_brid.Normalize.Attributes.{
  attribute_map, timestamp_from_unix_nano, unix_epoch,
}
use evidra_agentgateway_brid.Normalize.Verdict.{is_tool_call}
use evidra_agentgateway_brid.Normalize.Records.{span_execution, from_span}
use evidra_agentgateway_brid.Normalize.Records.Honest.{with_tool-eq-some}

-- The milliseconds of an `int64` of nanoseconds.
abbrev pub max_milliseconds : ℕ
max_milliseconds = 9223372036854

sub_time_bounds : (t u : ℤ) → (min_int64 ≤ℤ sub_time t u) × (sub_time t u ≤ℤ max_int64)
unfolding sub_time
sub_time_bounds t u = ground arith

milliseconds_bounds :
    (d : ℤ)
    → min_int64 ≤ℤ d
    → d ≤ℤ max_int64
    → (negsuc (max_milliseconds - 1) ≤ℤ milliseconds d) × (milliseconds d ≤ℤ pos max_milliseconds)
unfolding milliseconds
milliseconds_bounds (pos n) h k = ground arith
milliseconds_bounds (negsuc n) h k = ground arith

-- A time in the range of the Unix nanoseconds that an `int64` holds is read as it is.
timestamp_exact : (n : ℕ) → 0 < n → n < 2 ^ 63 → timestamp_from_unix_nano n ≡ pos (unix_epoch + n)
unfolding timestamp_from_unix_nano int64_of_uint64 ◌+ℤ◌
timestamp_exact n h k = ground arith

milliseconds_exact :
    (a b : ℕ)
    → a ≤ b
    → b < 2 ^ 63
    → milliseconds (sub_time (pos (unix_epoch + b)) (pos (unix_epoch + a)))
      ≡ pos ((b - a) / 1000000)
unfolding milliseconds sub_time ◌-ℤ◌
milliseconds_exact a b h k = ground arith

duration_exact :
    (a b : ℕ)
    → a ≤ b
    → b < 2 ^ 63
    → (if not (is_zero (pos (unix_epoch + a))) && not (is_zero (pos (unix_epoch + b)))
        then milliseconds (sub_time (pos (unix_epoch + b)) (pos (unix_epoch + a)))
        else pos 0)
      ≡ pos ((b - a) / 1000000)
duration_exact a b h k = ground (arith, milliseconds_exact a b h k)

clamped_bounds :
    (s t : ℤ)
    → let d = (if not (is_zero s) && not (is_zero t) then milliseconds (sub_time t s) else pos 0) in
      (negsuc (max_milliseconds - 1) ≤ℤ d) × (d ≤ℤ pos max_milliseconds)
clamped_bounds s t = elim (Bool-cases (not (is_zero s) && not (is_zero t))) [
  | inl e ↦ let (h, k) = sub_time_bounds t s in rw e (milliseconds_bounds (sub_time t s) h k)
  | inr e ↦ rw e (omega arith)
]

module _ (floats : Floats) where
  open floats use {Double}

  from_span-eq-some :
      (r : Span Double) (out : Execution)
      → from_span floats (some r) ≡ some out
      → span_execution floats r (attribute_map floats r.attributes) ≡ out
  unfolding from_span
  from_span-eq-some r out e = elim (Bool-cases (is_tool_call (attribute_map floats r.attributes))) [
    | inl c ↦
        (with_tool-eq-some (span_execution floats r (attribute_map floats r.attributes)) out
          (rw (c, from_span) at e)).1
    | inr c ↦ absurd (cc (rw (c, from_span) at e))
  ]

  -- Whatever times a span carries, its duration stays in the range of the milliseconds of an `int64`
  -- of nanoseconds.
  pub from_span-duration_bounds :
      (r : Span Double) (out : Execution)
      → from_span floats (some r) ≡ some out
      → (negsuc (max_milliseconds - 1) ≤ℤ out.duration_ms)
        × (out.duration_ms ≤ℤ pos max_milliseconds)
  unfolding span_execution
  from_span-duration_bounds r out e =
      subst
        (λ (o : Execution).
          (negsuc (max_milliseconds - 1) ≤ℤ o.duration_ms)
          × (o.duration_ms ≤ℤ pos max_milliseconds))
        (from_span-eq-some r out e)
        (clamped_bounds (timestamp_from_unix_nano r.start_time_unix_nano)
          (timestamp_from_unix_nano r.end_time_unix_nano))

  -- A span that starts and then ends before the nanosecond 2 ^ 63 of Unix time carries those times, and
  -- the whole milliseconds between them: nothing wraps around or saturates.
  pub from_span-times :
      (r : Span Double) (out : Execution)
      → 0 < r.start_time_unix_nano
      → r.start_time_unix_nano ≤ r.end_time_unix_nano
      → r.end_time_unix_nano < 2 ^ 63
      → from_span floats (some r) ≡ some out
      → (out.started_at ≡ pos (unix_epoch + r.start_time_unix_nano))
        × (out.finished_at ≡ pos (unix_epoch + r.end_time_unix_nano))
        × (out.duration_ms ≡ pos ((r.end_time_unix_nano - r.start_time_unix_nano) / 1000000))
  unfolding span_execution
  from_span-times r out h k m e =
      let a = timestamp_exact r.start_time_unix_nano h (omega arith) in
      let b = timestamp_exact r.end_time_unix_nano (omega arith) m in
      subst
        (λ (o : Execution).
          (o.started_at ≡ pos (unix_epoch + r.start_time_unix_nano))
          × (o.finished_at ≡ pos (unix_epoch + r.end_time_unix_nano))
          × (o.duration_ms ≡ pos ((r.end_time_unix_nano - r.start_time_unix_nano) / 1000000)))
        (from_span-eq-some r out e)
        (a, b, rw (a, b) (duration_exact r.start_time_unix_nano r.end_time_unix_nano k m))
