-- ===== src/Logger.antt =====
-- kernel/include/takt/logger.hpp and kernel/src/logger.cpp: which messages are printed, and under which
-- letter in the host build or at which level of ESP-IDF in the ESP32 build. `text` is the formatted
-- message.
use takt_os.Base.{ℕ, List, [], ◌∷◌, ltb, leb, get_or, if◌then◌else◌}

pub data LogLevel : Type 0 where
  trace debug info warn error fatal no_log : LogLevel

-- `static_cast<uint8_t>(level)`.
abbrev pub level_value : LogLevel → ℕ
level_value LogLevel.trace = 0
level_value LogLevel.debug = 1
level_value LogLevel.info = 2
level_value LogLevel.warn = 3
level_value LogLevel.error = 4
level_value LogLevel.fatal = 5
level_value LogLevel.no_log = 6

pub data EspLevel : Type 0 where
  esp_none esp_error esp_warn esp_info esp_debug : EspLevel

-- The switch of the ESP32 build.
pub esp_level : LogLevel → EspLevel
esp_level LogLevel.trace = EspLevel.esp_debug
esp_level LogLevel.debug = EspLevel.esp_debug
esp_level LogLevel.info = EspLevel.esp_info
esp_level LogLevel.warn = EspLevel.esp_warn
esp_level LogLevel.error = EspLevel.esp_error
esp_level LogLevel.fatal = EspLevel.esp_error
esp_level LogLevel.no_log = EspLevel.esp_none

-- A line of the log: the level's letter, the tag and the text.
pub record LogLine : Type 0 where
  pub letter : ℕ
  pub tag : List ℕ
  pub text : List ℕ

abbrev pub level_letters : List ℕ
level_letters = b'T' ∷ b'D' ∷ b'I' ∷ b'W' ∷ b'E' ∷ b'F' ∷ []

-- The index into the letters, at most 5.
abbrev pub letter_of : LogLevel → ℕ
letter_of level =
    get_or level_letters (if ltb 5 (level_value level) then 5 else level_value level) 0

pub set_level : LogLevel → LogLevel → LogLevel
set_level old level = level

-- Logger::log of the host build at the level that is set: the lines that are printed.
pub log : LogLevel → LogLevel → List ℕ → List ℕ → List LogLine
log threshold level tag text =
    if ltb (level_value level) (level_value threshold)
    then []
    else (record { letter = letter_of level; tag = tag; text = text }) ∷ []

-- The macro TAKT_LOG: `compiled` is TAKT_LOG_LEVEL.
pub takt_log : LogLevel → LogLevel → LogLevel → List ℕ → List ℕ → List LogLine
takt_log compiled threshold level tag text =
    if leb (level_value compiled) (level_value level) then log threshold level tag text else []
