-- ===== src/Sink.antt =====
-- internal/sink/jsonl.go: the sink that appends one line of JSON per execution to a file.
pub mod Lines
pub mod Series
pub mod Reading
pub mod Opening
use evidra_agentgateway_brid.Prelude.{
  ℕ, String, Bool, true, false, ◌&&◌, ◌⊎◌, inl, inr, Option, none, some, List, [], ◌∷◌, ◌++◌,
  length, nat_eq, if◌then◌else◌,
}
use evidra_agentgateway_brid.Text.{◌⧺◌}
use evidra_agentgateway_brid.Observation.{Execution}

abbrev pub Bytes : Type 0
Bytes = List ℕ

-- The interface `jsonlFile`, over the state of a file. `inl` and `some` are an error.
pub record JsonlFile (F : Type 0) : Type 0 where
  -- `Stat`, with the size only
  pub stat : F → String ⊎ ℕ
  -- `Write`: how many bytes it took, and its error
  pub write : F → Bytes → (ℕ × Option String) × F
  pub truncate : F → ℕ → Option String × F
  pub close : F → Option String × F

pub record Jsonl (F : Type 0) : Type 0 where
  pub path : String
  pub f : F
  pub poisoned : Option String

-- One call of `Write`: the execution, and what `ctx.Err()` is before and behind the lock.
pub record Request : Type 0 where
  pub ex : Execution
  pub ctx_err : Option String
  pub ctx_err_locked : Option String

-- `io.ErrShortWrite`
abbrev pub err_short_write : String
err_short_write = "short write"

module _ {F : Type 0} (file : JsonlFile F) (decimal : ℕ → String) where
  unfoldable pub poison : String → Jsonl F → Option String × Jsonl F
  poison e s = (
    some ("sink is poisoned after an unrecoverable append: " ⧺ e),
    record s { poisoned = some e },
  )

  -- `Write` behind an append that failed or was partial: the rollback.
  unfoldable pub rollback : ℕ → String → Jsonl F → Option String × Jsonl F
  unfolding poison
  rollback start write_err s =
      let t = record s { f = (file.truncate s.f start).1 } in
      elim (file.truncate s.f start).0 [
        | some rollback_err ↦
            poison
              ("write execution: "
                ⧺ (write_err ⧺ ("; rollback to offset " ⧺ (decimal start ⧺ (": " ⧺ rollback_err)))))
              t
        | none ↦ (
          some (
              "write execution: "
              ⧺ (write_err ⧺ (" (partial append rolled back to offset " ⧺ (decimal start ⧺ ")")))),
          t,
        )
      ]

  -- `Write` behind the append: an error, a short write, or the whole line.
  unfoldable pub appended : ℕ → Bytes → (ℕ × Option String) × F → Jsonl F → Option String × Jsonl F
  unfolding rollback
  appended start line ((n, some write_err), f) s = rollback start write_err (record s { f = f })
  appended start line ((n, none), f) s =
      if nat_eq n (length line)
      then (none, record s { f = f })
      else rollback start err_short_write (record s { f = f })

  -- `Write` behind `Stat`.
  unfoldable pub write_from : String ⊎ ℕ → Bytes → Jsonl F → Option String × Jsonl F
  unfolding appended
  write_from (inl e) line s = (some ("stat sink " ⧺ (s.path ⧺ (": " ⧺ e))), s)
  write_from (inr start) line s = appended start line (file.write s.f line) s

  -- `Write` under the lock, by the error of the context and the poison.
  unfoldable pub write_locked :
      Option String → Option String → Bytes → Jsonl F → Option String × Jsonl F
  unfolding write_from
  write_locked (some e) poisoned line s = (some ("write execution: " ⧺ e), s)
  write_locked none (some e) line s =
      (some ("sink is poisoned after an unrecoverable append: " ⧺ e), s)
  write_locked none none line s = write_from (file.stat s.f) line s

  -- `Write` behind `json.Marshal`; 10 is the line break.
  unfoldable pub write_raw : Option String → String ⊎ Bytes → Jsonl F → Option String × Jsonl F
  unfolding write_locked
  write_raw ctx_err (inl e) s = (some ("marshal execution: " ⧺ e), s)
  write_raw ctx_err (inr raw) s = write_locked ctx_err s.poisoned (raw ++ 10 ∷ []) s

  -- `Write`, where `marshal` is `json.Marshal`.
  unfoldable pub write_jsonl :
      (Execution → String ⊎ Bytes) → Request → Jsonl F → Option String × Jsonl F
  unfolding write_raw
  write_jsonl marshal r s = elim r.ctx_err [
    | some e ↦ (some ("write execution: " ⧺ e), s)
    | none ↦ write_raw r.ctx_err_locked (marshal r.ex) s
  ]

  unfoldable pub close_jsonl : Jsonl F → Option String × Jsonl F
  close_jsonl s =
      let t = record s { f = (file.close s.f).1 } in
      elim (file.close s.f).0 [
        | none ↦ (none, t)
        | some e ↦ (some ("close sink " ⧺ (s.path ⧺ (": " ⧺ e))), t)
      ]
