-- ===== src/Lib.antt =====
-- ForgeKey: the firmware's control logic.
--
-- ForgeKey is an ESP32 firmware for access control and sensing: a cabinet lock, power relays,
-- sensors, and an MQTT link to a server that sends signed commands. This library models the parts
-- that decide something, each as pure functions over a record of its globals; the rest of the
-- firmware calls them from one main loop.
--
-- - Prelude: tests on numbers, lists, machine words and byte texts that the others share. Json holds
--   the values that ArduinoJson hands out.
-- - Watchdog (src/watchdog/watchdog_manager.cpp): the health watchdog. State has the globals, Ops
--   `begin`, `markHealthy`, `suspend` and the like, Tick the function `tick` with its warnings,
--   recoveries and the reboot as a list of effects.
-- - Outbox (src/mqtt/mqtt_client.cpp): the retry queue for publishes. Message and Backoff have a
--   message and its delay, Queue `enqueueOutbound`, `serviceOutboundQueue` and `publishImmediate`,
--   Flash `persistCriticalQueue` and `loadCriticalQueue`, Reconnect the reconnection of `loop`. Its
--   writes to flash are safe sections of the watchdog, and its sends mark the links healthy.
-- - Command (src/security/command_validation.cpp): signed commands. Replay is the cache of accepted
--   commands, Auth the web tokens and detached signatures, Validate `validate` and
--   `rememberAccepted`; Envelope and Genuine say what an envelope and its authenticator have, Repeat
--   follows messages through both functions, and Stored the text of the cache in flash.
-- - Lock (src/lock/lock_device.cpp): the cabinet lock. State has the globals and `begin`, Tick the
--   function `tick`, Unlock `validateJwt` and `handleUnlockCommand`, which share the helpers of
--   Command.
-- - Relay (src/capabilities/power_relay/power_relay.cpp): Channels has the two latching relays with
--   `setChannel` and `setFromCommand`, Meter the BL0942 protocol. The flash is the one of Outbox.
-- - Ble (src/config/ble_desired_state.cpp): Config has the scanner's configuration and `apply`, Lists
--   the address lists with `macAllowed`, Identity `publicDeviceId`.
-- - Scanner (src/capabilities/ble_scanner/ble_scanner.cpp): the BLE scanner, which asks Ble whom it may
--   report. Ring is the ring of seen addresses, Advert what an advertisement says, Scan the globals with
--   `onResult` and `tickFn`, and Calls runs of its calls.
-- - StatusLed (src/capabilities/status_led/status_led.cpp): the status light. Pattern has the blink
--   patterns, Led the globals with the functions that other parts call, Tick `tickFn`, and Calls runs
--   of its calls.
-- - Badge (src/capabilities/badge_reader/badge_reader.cpp): the badge reader. Reader has the globals
--   with `tickFn`, Hex the text of a card, and Reference the debouncer of the host's contract tests
--   (tests/host/test_protocol_contracts.py).
-- - Photo (src/photo_upload/uploader.cpp): the upload of photos. Uploader has its members, which
--   read the answer of a server as Ota does, and Backoff runs of its calls.
-- - Matrix (src/capabilities/status_matrix/status_matrix.cpp): Spec has the look of an indicator and
--   the words for it, Words the texts of an acknowledgement.
-- - Ota (src/ota/ota_updater.cpp): updates over the air. Spec has a dispatch and `parse`, Version,
--   Rollout and Policy the update policy, Url the split of the address, Download the loop that fetches
--   and writes the image, Digest and Signature (src/security/firmware_verify.cpp) its checks, and
--   Apply the whole of `apply`, with its calls of the watchdog and the flash as a list of effects.
-- - EspLock (esp32c6-lock/main): the second firmware, a cabinet lock in C. State, Tick and Orders have
--   the state machine of lock_state.c, Token its check of a token, Validation the checks of
--   command_validation.c, and Dispatch the handler `on_command_message` of main.c, which joins them.
--   What the two firmwares share is taken from Command and Lock.
-- - Main (src/main.cpp): what the main program keeps itself. Log is the ring of debug messages that
--   wait for the broker, Support has support mode and the rapid checks for updates, Recovery the
--   callback `recoverSubsystem` that the watchdog calls, and Dispatch `onFirmwareDispatch`, which
--   takes a message on the firmware topic to Ota.
--   Commands is `onCommandMessage`, which takes a message on the command topic through Command to the
--   lock, to support mode and to the other parts, and Indicator its resolution of an indicator by the
--   words of Matrix. Restart has the reboot after some commands, and Once and Reboot follow messages
--   one after the other, and across a power cut.
-- - Time (src/time/time_sync.cpp): when the wall clock counts as valid, which Command and Lock ask.
-- - Occupancy (src/counting/occupancy_counter.cpp): the filter on detected head counts.
--
-- Time is the 32-bit `millis()`, an argument of each operation, and differences wrap as in the
-- source. Most loops run over the list they consume or over the source's own number of rounds. Three
-- rounds pad a base64 text, since its length is anything modulo 4. The loops of `compareVersion` and
-- `tokenListContains` get one round more than their texts have bytes, as each round consumes one. The
-- download loop runs over a list of rounds, each with what the client, the clock and the flash
-- answer, and says so where the list ends first. A flush of the ring of debug messages gets as many
-- rounds as the ring has entries, and each round takes one or ends it.
--
-- Parameters stand for what the firmware calls: the NVS flash (with its documented laws), mbedtls,
-- ArduinoJson and cJSON, the C time functions, the network, the pins. A table that is read past its
-- end ends a run of the status light with `none`.
--
-- Not modelled: serial output, JSON texts and web pages; the camera and its inference, the pixels of
-- the displays, the radio, the beacon and the tags of BLE, and provisioning, which are calls of
-- hardware and network libraries; and the set-up and the main loop, which call the parts in turn.
--
-- A comment above a definition names the code it follows; names are the source's, in snake case.
pub mod Prelude
pub mod Watchdog
pub mod Ota
pub mod Outbox
pub mod EspLock
pub mod Json
pub mod Command
pub mod Lock
pub mod Main
pub mod Relay
pub mod Occupancy
pub mod Ble
pub mod Scanner
pub mod StatusLed
pub mod Matrix
pub mod Badge
pub mod Photo
pub mod Time
