-- ===== src/Lib.antt =====
-- SVS Bridge is firmware for a board that puts an SVS (Scalable Video Switch) on the network. Its
-- platform code (src/platform/esp32/main) calls a core (src/core) that does no I/O. These files are
-- about the core and about the flasher, the settings, the logins, the captive DNS and the RFC 2217
-- clients of the platform:
--   * Rfc2217, src/core/rfc2217_proto.c: the server side of RFC 2217. `St` and `Session` are
--     the parser's state and `rfc2217_t`, `Io` is `rfc2217_io_t`; `greeting`, `on_verb`, `on_subneg`,
--     `input`, `modemstate` and `escape` are the functions of these names. The platform gives every
--     chunk of a client's bytes to `input`, writes `out` to the SVS and sends `reply` back.
--   * Echo, the same file: the filter that takes the echo of a Y<n> or G<n> out of what the SVS says,
--     between the SVS and `escape`. `Echo` is `rfc2217_echo_t`; `expect`, `filter_byte` and `filter`.
--   * Vectors, src/core/svs_vectors.h: `patch_vectors` and what it calls: the reset of an AVR image is
--     made to jump to the bootloader, and another vector to the application.
--   * Hex, src/core/svs_hex.h: `decode_hex`, which makes a firmware file of untrusted source into the
--     image that `patch_vectors` then changes and the flasher sends.
--   * Config, src/core/svs_config.h: the SVS's settings in its EEPROM: `decode_input`,
--     `decode_hardware` and `plan_writes`, which says what bytes a change of settings writes; in
--     Config.Commands the addresses that are read, the serial commands and the SVS's answers.
--   * Settings, src/platform/esp32/main/svs_settings.cpp: the tasks that read and write the SVS's
--     settings over svs_usb, by Config. Settings is the state and the monad of a task, Asking the
--     questions and what blocks a read, Reading `read_task`, Writing `write_task`, Api `status`,
--     `start_read` and `start_write`, Layout the description of the switch that the bridge keeps. Law
--     says what an SVS is relied on for, and Svs is one; Reachable is the steps of the whole.
--   * Protocol, src/core/svs_protocol.h: what a line of the SVS's status output means, and which of
--     its repeated lines the log leaves out.
--   * Flasher, src/platform/esp32/main/svs_flasher.cpp: the firmware that web_server.cpp stages by
--     `stage_hex` (by Hex) is checked, previewed and flashed over USB. Flasher is the state, Line the
--     urclock protocol over svs_usb's serial line, Boot what the bootloader says of itself, Jobs the
--     tasks `check_task`, `preview_task` and `flash_task` (by Vectors), Api the calls and `status`.
--     Law says what a bootloader is relied on for, and Chip is one.
--   * Auth, src/platform/esp32/main/auth.cpp: `set_password`, `check_password`, the sessions and the
--     token of the API, which web_server.cpp asks before it answers.
--   * Dns, src/platform/esp32/main/dns_server.cpp: `build_reply`, while the bridge is its own network.
--   * Clients, src/platform/esp32/main/rfc2217.cpp: `send_text`, which gives a client what the SVS says
--     by `escape`, in Lines `from_client`, after whose lines `Echo` waits for a number, and in Slots
--     `add_client`, `drop_client` and `restart_for_dtr`.
--   * ApiEvents, src/core/api_events.h: `url_decode`, `parse` and `names_json`, for the events that
--     web_server.cpp sends.
--   * Base: lists, bits, tests and C's `int` over the native numbers.
--
-- Conventions. A byte is a number; where a number wraps or is cut, `% 2 ^ w` says so. A buffer is the
-- list of the bytes in it, beside its maximum. A pointer to an array that is changed in place
-- is an argument and a result. What C++ leaves undefined is an outcome of its own (`fault` in Hex,
-- `undefined` in Protocol), and so is the abort of `read_task` for a number of inputs that is not known
-- (`none`). A byte of the EEPROM that was not read, -1 in the code, is `none`.
--
-- Loops are recursion on the list that they go through, or on a count: the slots of an input, and
-- the two loops of `rjmp_reset_target`, which take 4097 rounds of fuel. An rjmp reaches 4096 bytes
-- either way, so on the flash of 32768 bytes that the theorems are about neither loop needs more than
-- one round.
--
-- The flasher tries to sync 20 times and waits 80 rounds for the SVS, as its code does; the loop over the
-- labels of a DNS name has as much fuel as the packet has bytes, and each round passes one at least.
--
-- What is not under src/ is a parameter: the serial line, as far as the flasher calls it, the clock,
-- random bytes, SHA-256 and PBKDF2 by PSA, the storage NVS, JSON, sscanf, and a socket's send. The
-- calls of svs_usb.cpp are parameters too, of the flasher and of the settings. The loops that send
-- have a round for each byte, and each takes one at least. The flasher's theorems about the chip
-- suppose a bootloader that writes only where it is told and reads back what is there; those about
-- the settings an SVS whose answers are the bytes of its EEPROM, of which only W changes one, and what
-- its transcoders are, of which only the commands for them change that of the input on screen.
--
-- A task of the flasher or of the settings, and each call of these and of Auth, runs whole: what other
-- calls do while a task runs is that they refuse, and what they do between two sections of one call
-- under the mutex is not described.
--
-- Not modelled: `rfc2217_describe`, which words a log line; of svs_flasher.cpp `probe_task` and the
-- log; of dns_server.cpp the sockets; and the rest of src/platform, which is calls of ESP-IDF, lwIP,
-- mbedTLS and ArduinoJson for the most part, with state machines (the link to the SVS, the Wi-Fi, the
-- loop of the RFC 2217 server) that are not described here. That the platform calls the core with the
-- buffers that the theorems ask for is taken from its source, not proved.
pub mod Base
pub mod Rfc2217
pub mod Echo
pub mod Vectors
pub mod Hex
pub mod Config
pub mod Protocol
pub mod Flasher
pub mod Dns
pub mod Clients
pub mod ApiEvents
pub mod Auth
pub mod Settings
