-- ===== src/Lib.antt =====
-- barelog: the OpenLog firmware for a small microcontroller, which copies what arrives on the
-- serial port to a file on an SD card. Bytes enter a ring by interrupt; the main loop drains the
-- ring to the FAT32 log file a sector at a time; three escape characters enter command mode.
--
-- Parts and files. Each function has the name of the C function; a part of a function has a name
-- of its own and says which lines of the function it is.
--   Uart: uart.h, uart.c. `Uart` holds ring, ring_head, ring_tail and the LED pin.
--   Config: config.h, config.c, over the interface `Eeprom` of the avr-libc EEPROM calls.
--   EepromFlash: eeprom_flash.c, the same byte operations on chips without an EEPROM.
--   Avr: platform_atmega328p.c and its copy atmega328p.c, the pins of platform.h: the registers of
--   the ATmega328P, over the bit positions of <avr/io.h> (`Bits`). Avr.Pins relates them to Spi.
--   Spi, Sd: spi.h, spi.c, sd.h, sd.c, over the interface `Slave`, one exchange of bytes.
--   Device: the six operations of sd.h as fat32_*.c uses them, and what a card in working order
--   does (`IsReliable`). Sd.Writes fills the operations from sd.c.
--   Machine: the firmware's memory. fat32_*.c reads sectors into ring[0..511], so the ring stands
--   beside the volume, the log file, the configuration and the disk.
--   Fat: fat32_priv.h, fat32_state.c, fat32_vol.c; Fat.Mount: fat32_mount.c; Fat.Log:
--   fat32_log.c, in Fat.Log.Open and Fat.Log.Append; Fat.Trim: fat32_trim.c. Fat.Log.Chain is the
--   reference for cluster chains: a FAT as a map, the first free clusters in it, and their linking.
--   Fat.Log.Directory is the reference for the root directory: the list of its slots, the first
--   slot of a name, and the first open one.
--   Logger: log.c. Repl: repl.c, where the input is the list of the bytes to come; Repl.Polled:
--   repl_new.c, and the entry of repl.c, over the registers of a serial port. Boot: main.c;
--   Boot.Idle: its loop among the interrupts. MainNew: main_new.c, over Avr.
--   Bench and Examples: hardware to run the firmware on, and the theorems at concrete inputs.
--
-- Conventions. Numbers are natural numbers; the wrap of uint8_t, uint16_t and uint32_t is written
-- out as u8, u16, u32, and subtraction as sub16 or sub32. A return code 0 is `ok`, a code -n is
-- `err n`; the state is kept on error as the code leaves it. Buffers are lists of bytes; a read
-- past the end gives 0. One byte is exchanged, one interrupt served at a time.
--
-- Bounds and fuel. Loops with a bound in the code recurse on that bound: the retries of sd.c, the
-- FAT copies, the names up to LOG65534, the entries of a sector. Loops without one take fuel: the
-- directory chain, the cluster chain, the search for a free cluster, the rounds of log_process and
-- the lines of command mode, the polls of Avr. Used-up fuel is `out_of_fuel` (`none` in Avr), no
-- result of the code. Two rounds
-- are enough for log_process on a ring that is not refilled, since it holds at most 1023
-- bytes.
--
-- Not modelled: what the timer does to its counter, power saving, sleep and the stack canary; the
-- ports to other chips (platform_*.c), whose functions are stubs; log_new.c, whose functions are
-- those of log.c without the flag of the idle flush.
pub mod Prelude
pub mod Avr
pub mod Uart
pub mod Eeprom
pub mod Config
pub mod Device
pub mod Spi
pub mod Sd
pub mod Machine
pub mod Fat
pub mod Logger
pub mod Repl
pub mod EepromFlash
pub mod Boot
pub mod MainNew
pub mod Bench
pub mod Examples
