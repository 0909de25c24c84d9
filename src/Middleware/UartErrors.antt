-- ===== src/Middleware/UartErrors.antt =====
-- The UART module on a port that could not be initialized.
use takt_os.Base.{ℕ, ◌≡◌, refl, ap, arith, ◌∙◌, [], Bool, true, false, ◌&&◌, ltb, get_or}
use takt_os.Base.Int.{ℤ, pos, negsuc, minus_one}
use takt_os.Drivers.Uart
use takt_os.Drivers.Uart.{
  UartApi, UartConfig, UartState, max_ports, set_pins, init_port, init_on, is_installed, read,
}
use takt_os.Middleware.UartModule.{UartModule, uart_data_received_event, uart_config, init, tick}

-- Whether a port is there to be read.
abbrev pub can_read : {W : Type 0} → ℤ → UartState W → Bool
can_read (pos port) s = is_installed port s
can_read (negsuc n) s = false

module _ {W : Type 0} (api : UartApi W) where
  -- An initialization that fails installs nothing.
  init_port_failed :
      (port : ℕ) (config : UartConfig) (s : UartState W)
      → (init_port api port config s).0 ≡ false
      → (init_port api port config s).1.installed ≡ s.installed
  unfolding init_port
  init_port_failed port config s h = ground arith

  init_on_failed :
      (port : ℤ) (config : UartConfig) (s : UartState W)
      → (init_on api port config s).0 ≡ false
      → (init_on api port config s).1.installed ≡ s.installed
  unfolding init_on
  init_on_failed (negsuc n) config s h = refl
  init_on_failed (pos port) config s h = init_port_failed port config s h

  read_refused :
      (port : ℤ) (len : ℕ) (s : UartState W)
      → can_read port s ≡ false
      → read api port len s ≡ (minus_one, [], s)
  unfolding read
  read_refused (negsuc n) len s h = refl
  read_refused (pos port) len s h = rw (read, h)

  can_read-installed :
      (port : ℤ) (s s1 : UartState W)
      → s1.installed ≡ s.installed
      → can_read port s ≡ false
      → can_read port s1 ≡ false
  can_read-installed (negsuc n) s s1 same h = refl
  can_read-installed (pos port) s s1 same h =
      ap (λ xs. ltb port max_ports && get_or xs port false) same ∙ h

  module _ (publish : ℕ → ℕ → UartState W → UartState W) where
    -- The port is not installed yet and cannot be initialized: the module's `init` returns true all
    -- the same, and its next tick reads nothing, has a count of 4294967295 bytes, from the driver's
    -- -1, and publishes that many bytes as received.
    pub init-tick_failed :
        (m : UartModule) (s : UartState W)
        → can_read m.port s ≡ false
        → (Uart.init api (uart_config m) s).0 ≡ false
        → let (ok, m1, s1) = init api publish m s in
          let (m2, s2) = tick api publish m1 s1 in
          (ok ≡ true)
          × (m2.rx_count ≡ 4294967295)
          × (m2.rx_buf ≡ m.rx_buf)
          × (s2 ≡ publish uart_data_received_event 4294967295 s1)
    unfolding Uart.init init tick
    init-tick_failed m s closed failed =
        let s1 = (init_on api m.port (uart_config m) s).1 in
        let still =
          can_read-installed m.port s s1 (init_on_failed m.port (uart_config m) s failed) closed in
        rw (read_refused m.port m.bytes_per_tick s1 still) (refl, refl, refl, refl)
