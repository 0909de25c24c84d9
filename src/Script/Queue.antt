-- ===== src/Script/Queue.antt =====
-- A tick of the script engine against the list of its instructions.
use takt_os.Base.{
  ℕ, zero, suc, ◌+◌, ◌-◌, ◌%◌, ◌<◌, ◌≡◌, ◌≢◌, set, get_or-set_ne, refl, ap, sym, ◌∙◌, List, [], ◌∷◌,
  Option, none, some, Bool, true, false, ltb, ◌==◌, get_or, if◌then◌else◌, arith,
}
use takt_os.Script.{
  Instruction, no_instruction, queue_size, ScriptEngine, execute_next_instruction, executed,
  is_none, tick, enqueue_instruction, shutdown,
}

-- The `n` instructions from place `head` of the ring on.
abbrev pub ring : List Instruction → ℕ → ℕ → List Instruction
ring queue head zero = []
ring queue head (suc n) = get_or queue head no_instruction ∷ ring queue ((head + 1) % queue_size) n

-- The engine behind the last of `n` instructions.
abbrev pub head_after : ℕ → ℕ → ℕ
head_after zero head = head
head_after (suc n) head = head_after n ((head + 1) % queue_size)

abbrev pub idle_engine : ScriptEngine → ScriptEngine
idle_engine e = record e {
  queue_head = head_after e.queue_count e.queue_head;
  queue_count = 0;
  work_pending = false;
}

-- The pending flag of a queue of `n` instructions.
abbrev pending_of : ℕ → Bool
pending_of zero = false
pending_of (suc n) = true

pending_of-ltb : (n : ℕ) → pending_of n ≡ ltb 0 n
pending_of-ltb zero = refl
pending_of-ltb (suc n) = ground arith

abbrev engine_at : ScriptEngine → ℕ → ℕ → ScriptEngine
engine_at e head n = record e { queue_head = head; queue_count = n; work_pending = pending_of n }

still_pending : (n : ℕ) → (if n == 0 then false else true) ≡ pending_of n
still_pending zero = refl
still_pending (suc n) = ground arith

execute-engine_at :
    (e : ScriptEngine) (head n : ℕ)
    → execute_next_instruction (engine_at e head (suc n))
      ≡ (some (get_or e.queue head no_instruction), engine_at e ((head + 1) % queue_size) n)
unfolding execute_next_instruction
execute-engine_at e head n =
    let some_left : (suc n == 0) ≡ false = ground arith in
    let less : suc n - 1 ≡ n = omega arith in
    rw some_left (λ i. (
      some (get_or e.queue head no_instruction),
      record e {
        queue_head = (head + 1) % queue_size;
        queue_count = less i;
        work_pending = (ap (λ k. if k == 0 then false else true) less ∙ still_pending n) i;
      },
    ))

continue_with :
    Option Instruction
    → Option (List Instruction × ScriptEngine)
    → Option (List Instruction × ScriptEngine)
continue_with instr none = none
continue_with instr (some r) = some (executed instr r.0, r.1)

tick_count :
    (n head : ℕ) (e : ScriptEngine) (fuel : ℕ)
    → n < fuel
    → tick fuel (engine_at e head n) ≡ some (ring e.queue head n, engine_at e (head_after n head) 0)
unfolding tick continue_with
tick_count n head e zero enough = absurd (omega arith)
tick_count zero head e (suc fuel) enough = refl
tick_count (suc n) head e (suc fuel) enough =
    ap
      (λ (r : Option Instruction × ScriptEngine).
        if is_none r.0
        then some ([], engine_at e head (suc n))
        else continue_with r.0 (tick fuel r.1))
      (execute-engine_at e head n)
    ∙ ap (continue_with (some (get_or e.queue head no_instruction)))
        (tick_count n ((head + 1) % queue_size) e fuel (omega arith))

-- In an engine whose pending flag says whether its queue has instructions, a tick ends: one round more
-- than there are instructions is enough. It executes the instructions of the queue, the oldest first,
-- and leaves the queue empty and the flag cleared.
pub tick_lem :
    (e : ScriptEngine) (fuel : ℕ)
    → e.work_pending ≡ ltb 0 e.queue_count
    → e.queue_count < fuel
    → tick fuel e ≡ some (ring e.queue e.queue_head e.queue_count, idle_engine e)
tick_lem e fuel pending enough =
    let flag : e.work_pending ≡ pending_of e.queue_count =
      pending ∙ sym (pending_of-ltb e.queue_count) in
    ap (tick fuel) (λ i. record e { work_pending = flag i })
    ∙ tick_count e.queue_count e.queue_head e fuel enough

-- `shutdown` drops the instructions but keeps the places of the ring: behind a shutdown of an engine
-- whose queue begins and ends at different places, one new instruction and a tick execute what the
-- ring holds at its beginning, and not the new instruction.
pub tick-shutdown :
    (e : ScriptEngine) (opcode operand fuel : ℕ)
    → e.queue_head ≢ e.queue_tail
    → 1 < fuel
    → tick fuel (enqueue_instruction (shutdown e) opcode operand)
      ≡ some (
        get_or e.queue e.queue_head no_instruction ∷ [],
        record (enqueue_instruction (shutdown e) opcode operand) {
          queue_head = (e.queue_head + 1) % queue_size;
          queue_count = 0;
          work_pending = false;
        },
      )
unfolding enqueue_instruction shutdown
tick-shutdown e opcode operand fuel apart enough =
    let x : Instruction = record { opcode = opcode; operand = operand } in
    let e1 : ScriptEngine = record e {
      queue = set e.queue e.queue_tail x;
      queue_tail = (e.queue_tail + 1) % queue_size;
    } in
    let old : get_or (set e.queue e.queue_tail x) e.queue_head no_instruction
        ≡ get_or e.queue e.queue_head no_instruction =
      get_or-set_ne e.queue e.queue_tail e.queue_head x no_instruction (λ q. apart (sym q)) in
    tick_count 1 e.queue_head e1 fuel enough
    ∙ ap
        (λ y. some (
          y ∷ [],
          record e1 {
            queue_head = (e.queue_head + 1) % queue_size;
            queue_count = 0;
            work_pending = false;
          },
        ))
        old
