-- ===== src/Telemetry.antt =====
-- The OTLP messages, with the fields that the program reads. The protobuf library that makes and decodes
-- them is not modelled; a pointer that may be nil is an `Option`.
use evidra_agentgateway_brid.Prelude.{ℕ, String, Bool, Option, List}
use evidra_agentgateway_brid.Prelude.Int.{ℤ}

-- What Go's `strconv` and its conversions do with floating-point numbers, which have no model here.
pub record Floats : Type 1 where
  pub Double : Type 0
  -- `strconv.FormatFloat(v, 'g', -1, 64)`
  pub format_float : Double → String
  -- `strconv.ParseFloat(v, 64)`, `none` for an error
  pub parse_float : String → Option Double
  -- `int64(f)`
  pub to_int64 : Double → ℤ

-- `other` stands for the values that hold no scalar: arrays, maps, bytes and an unset value.
pub data AnyValue (D : Type 0) : Type 0 where
  string_value : String → AnyValue D
  bool_value : Bool → AnyValue D
  int_value : ℤ → AnyValue D
  double_value : D → AnyValue D
  other : AnyValue D

pub record KeyValue (D : Type 0) : Type 0 where
  pub key : String
  pub value : Option (AnyValue D)

-- The list of attributes of a signal; an entry may be nil.
abbrev pub Attributes : Type 0 → Type 0
Attributes D = List (Option (KeyValue D))

pub data StatusCode : Type 0 where
  unset ok error : StatusCode

pub data SpanKind : Type 0 where
  unspecified internal server client producer consumer : SpanKind

pub record LogRecord (D : Type 0) : Type 0 where
  pub trace_id : List ℕ
  pub span_id : List ℕ
  pub time_unix_nano : ℕ
  pub attributes : Attributes D

pub record Span (D : Type 0) : Type 0 where
  pub trace_id : List ℕ
  pub span_id : List ℕ
  pub parent_span_id : List ℕ
  pub kind : SpanKind
  pub start_time_unix_nano : ℕ
  pub end_time_unix_nano : ℕ
  pub attributes : Attributes D
  pub status : Option StatusCode
