-- ===== src/ModbusGateway/Poll.antt =====
-- What the gateway's ticks read.
use takt_os.Base.{
  ℕ, zero, suc, ◌+◌, ◌%◌, ◌<◌, ◌≡◌, refl, ap, ◌∙◌, Option, some, true, not, if◌then◌else◌, arith,
}
use takt_os.Modbus.{ModbusModule, Line, read_holding_register}
use takt_os.ModbusGateway.{ModbusGateway, poll, poll_on, tick}

module _ {W : Type 0} (line : Line W) where
  -- The ticks of the gateway.
  abbrev pub ticks : ℕ → ModbusGateway → W → ModbusGateway × W
  ticks zero g w = (g, w)
  ticks (suc n) g w = let (g1, w1) = tick line g w in ticks n g1 w1

  -- The reads of `n` registers from `addr` on, in the cycle of ten.
  abbrev pub reads : ModbusModule → ℕ → ℕ → W → W
  reads m zero addr w = w
  reads m (suc n) addr w =
      let (_, _, w1) = read_holding_register line m 1 addr 0 w in reads m n ((addr + 1) % 10) w1

  poll_on-some :
      (target : Option ModbusModule) (m : ModbusModule) (g : ModbusGateway) (w : W)
      → target ≡ some m
      → poll_on line target g w ≡ poll line m g w
  poll_on-some target m g w there = rw there refl

  tick_polls :
      (m : ModbusModule) (g : ModbusGateway) (w : W)
      → g.modbus ≡ some m
      → g.poll_pending ≡ true
      → tick line g w ≡ poll line m g w
  unfolding tick
  tick_polls m g w there on =
      ap (λ p. if not p then (g, w) else poll_on line g.modbus g w) on
      ∙ poll_on-some g.modbus m g w there

  -- The gateway with a Modbus module, as it polls from its start on: `n` ticks make `n` reads of slave
  -- 1, in the cycle of the registers 0 to 9, and no other call; and the gateway still has work.
  pub ticks_lem :
      (n : ℕ) (m : ModbusModule) (g : ModbusGateway) (w : W)
      → g.modbus ≡ some m
      → g.poll_pending ≡ true
      → g.poll_addr < 10
      → ticks n g w ≡ (record g { poll_addr = (g.poll_addr + n) % 10 }, reads m n g.poll_addr w)
  unfolding poll
  ticks_lem zero m g w there on low =
      let same : g.poll_addr ≡ (g.poll_addr + 0) % 10 = omega arith in
      ap (λ a. (record g { poll_addr = a }, w)) same
  ticks_lem (suc n) m g w there on low =
      let next = (g.poll_addr + 1) % 10 in
      let (_, _, w1) = read_holding_register line m 1 g.poll_addr 0 w in
      let g1 = record g { poll_addr = next } in
      let same : (next + n) % 10 ≡ (g.poll_addr + suc n) % 10 = omega arith in
      ap (λ (r : ModbusGateway × W). ticks n r.0 r.1) (tick_polls m g w there on)
      ∙ ticks_lem n m g1 w1 there on (omega arith)
      ∙ ap (λ a. (record g { poll_addr = a }, reads m n next w1)) same
