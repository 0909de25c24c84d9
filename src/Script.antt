-- ===== src/Script.antt =====
-- middleware/include/takt/modules/script_engine_module.hpp and
-- middleware/src/script_engine_module.cpp: the queue of instructions of the script engine. To execute
-- an instruction is to report it: the log is what the functions return beside the engine.
pub mod Queue
mod Tests
use takt_os.Base.{
  ℕ, zero, suc, ◌+◌, ◌-◌, ◌%◌, List, [], ◌∷◌, Option, none, some, Bool, true, false, not, leb, ◌==◌,
  get_or, set, replicate, if◌then◌else◌,
}

pub record Instruction : Type 0 where
  pub opcode : ℕ
  pub operand : ℕ

abbrev pub no_instruction : Instruction
no_instruction = record { opcode = 0; operand = 0 }

abbrev pub queue_size : ℕ
queue_size = 64

pub record ScriptEngine : Type 0 where
  pub queue : List Instruction
  pub queue_head : ℕ
  pub queue_tail : ℕ
  pub queue_count : ℕ
  pub work_pending : Bool

abbrev pub new_engine : ScriptEngine
new_engine = record {
  queue = replicate 64 no_instruction;
  queue_head = 0;
  queue_tail = 0;
  queue_count = 0;
  work_pending = false;
}

pub init : ScriptEngine → Bool × ScriptEngine
init e = (true, e)

pub enqueue_instruction : ScriptEngine → ℕ → ℕ → ScriptEngine
enqueue_instruction e opcode operand = if leb queue_size e.queue_count then e else record e {
  queue = set e.queue e.queue_tail (record { opcode = opcode; operand = operand });
  queue_tail = (e.queue_tail + 1) % queue_size;
  queue_count = e.queue_count + 1;
  work_pending = true;
}

-- The instruction that is executed, if there is one.
pub execute_next_instruction : ScriptEngine → Option Instruction × ScriptEngine
execute_next_instruction e =
    let rest = e.queue_count - 1 in
    if e.queue_count == 0 then (none, e) else (
      some (get_or e.queue e.queue_head no_instruction),
      record e {
        queue_head = (e.queue_head + 1) % queue_size;
        queue_count = rest;
        work_pending = if rest == 0 then false else e.work_pending;
      },
    )

abbrev pub executed : Option Instruction → List Instruction → List Instruction
executed none rest = rest
executed (some x) rest = x ∷ rest

abbrev pub is_none : Option Instruction → Bool
is_none none = true
is_none (some x) = false

-- The loop of `tick`: the instructions in the order of their execution, and the engine; `none` is that
-- the fuel ran out.
pub tick : ℕ → ScriptEngine → Option (List Instruction × ScriptEngine)
tick zero e = none
tick (suc fuel) e =
    let (instr, e1) = execute_next_instruction e in
    let rest = tick fuel e1 in
    if not e.work_pending
    then some ([], e)
    else if is_none instr
    then some ([], e)
    else elim rest [ none ↦ none | some r ↦ some (executed instr r.0, r.1) ]

pub shutdown : ScriptEngine → ScriptEngine
shutdown e = record e { queue_count = 0; work_pending = false }
