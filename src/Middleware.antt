-- ===== src/Middleware.antt =====
-- middleware/: the modules of the connections and of the actuators. Modbus and Script are beside this
-- directory, as they have models of their own.
pub mod WifiModule
pub mod Reconnect
pub mod MqttModule
pub mod Outbox
pub mod RelayModule
pub mod RelayPin
pub mod UartModule
pub mod UartErrors
pub mod SensorModule
pub mod BleModule
pub mod WebServerModule
mod Tests
