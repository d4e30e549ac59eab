-- ===== src/Punchline/Recorder.antt =====
-- core/include/archivum/core/recorder.h and the functions of modules/punchline/src/exceptions.cpp and
-- payroll.cpp that modules/punchline/src/lifecycle.cpp calls: an interface over the state `S` of an open
-- write transaction. An error gives no state: the caller abandons the transaction.
use archivum.Base.{ℕ, Option, List, Bytes}
use archivum.Base.Int.{ℤ}
use archivum.Status.{Result}
use archivum.Engine.Types.{Row}
use archivum.Punchline.Reader.{Table, Reader}
use archivum.Punchline.Data.Exception.{Exception}

pub record Recorder (S : Type 0) : Type 0 where
  pub reader : S → Reader
  pub update : Table → Row → S → Result S
  pub insert : Table → Row → S → Result S
  -- `core::next_id`
  pub next_id : Table → S → Result (ℤ × S)
  pub audit_id : ℤ
  -- `open_hold`: the detail of the open hold of an employee's timesheet of a period.
  pub open_hold : ℤ → ℤ → S → Result (Option Bytes)
  -- `resolve_matching` with the kind, the employee and the period of a key
  pub resolve_matching : Bytes → ℤ → ℤ → Bytes → ℤ → S → Result (ℕ × S)
  -- `open_exceptions` of an employee and a kind
  pub open_exceptions : ℤ → Bytes → S → Result (List Exception)
  pub close_exception : ℤ → Bytes → Bytes → ℤ → S → Result S
