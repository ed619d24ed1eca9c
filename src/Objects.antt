-- ===== src/Objects.antt =====
-- Methods that change the attributes of their object: the state is the trace of what the program
-- did outside, and the object.
pub mod Laws
pub mod Invariants
use xcp_ng_tests.Effect.{Result, ok, err, Exec}
use xcp_ng_tests.Commands.{Env, Trace}
use xcp_ng_tests.Common.Waiting.{Clock, trace_clock}

abbrev pub Obj : Type 0 → Type 0
Obj V = Trace × V

module _ {V A : Type 0} where
  -- A step that needs no attribute.
  abbrev pub on_trace : Exec Trace A → Exec (Obj V) A
  on_trace m s = let (r, t) = m s.0 in (r, (t, s.1))

  -- A step that reads attributes, and a step that assigns some.
  abbrev pub with_obj : (V → Exec (Obj V) A) → Exec (Obj V) A
  with_obj f s = f s.1 s

abbrev pub assign : {V : Type 0} → (V → V) → Exec (Obj V) (Unit {0})
assign f s = (ok tt, (s.0, f s.1))

abbrev pub obj_clock : {V : Type 0} → Env → Clock (Obj V)
obj_clock E = record { now = λ s. E.clock s.0; after = λ n s. ((trace_clock E).after n s.0, s.1) }
