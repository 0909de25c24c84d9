-- ===== src/Script/Tests.antt =====
-- Runs of the script engine, and its theorem at such a run.
use takt_os.Base.{◌≡◌, refl, ◌∷◌, [], some, true, arith, replicate}
use takt_os.Script.{ScriptEngine, new_engine, no_instruction, tick}
use takt_os.Script.Queue.{idle_engine, tick_lem}

-- Two instructions.
abbrev loaded : ScriptEngine
loaded = record new_engine {
  queue =
      (record { opcode = 1; operand = 10 })
      ∷ (record { opcode = 2; operand = 20 })
      ∷ replicate 62 no_instruction;
  queue_tail = 2;
  queue_count = 2;
  work_pending = true;
}

tick_lem_example :
    tick 3 loaded
    ≡ some (
      (record { opcode = 1; operand = 10 }) ∷ (record { opcode = 2; operand = 20 }) ∷ [],
      idle_engine loaded,
    )
tick_lem_example = tick_lem loaded 3 refl (omega arith)
