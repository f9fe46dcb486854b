-- ===== src/Lib.antt =====
-- mandeye_controller: the program of a handheld laser scanner, code/ of the repository.
--
-- Parts. The program runs threads that share a few objects. The Livox SDK's callbacks fill the
-- lidar client (code/LivoxClient.cpp), a worker reads the GNSS receiver (code/gnss.cpp), the GPIO
-- client (code/gpios.cpp) drives LEDs and a buzzer and debounces two buttons, and the file system
-- client (code/FileSystemClient.cpp) numbers the sessions. code/main.cpp has the triggers of
-- buttons, keyboard and web page, and stateWatcher, the loop that starts and stops logs, hands
-- the buffers over and saves them. code/hardware_config describes each board in a header.
--
-- Files.
-- - Prelude: shared names; lists, bytes, association lists, integers, decimal numerals and
--   interleavings.
-- - States: code/state.h.
-- - Livox: LivoxClient. A null shared_ptr buffer is `none`. Livox/Sdk has the SDK's records and
--   the doubles, a parameter. Livox/Query is QueryInternalInfoCallback, Livox/Events the
--   callbacks as events. Proofs: Livox/Ids, Registry and Mapping on ids, Recording on buffers,
--   Session on clocks, Query/Fuel, Query/Params and Query/Keeps on the parameters of an answer.
--   Livox/Listener is the start of the SDK, with its configuration's text in Listener/Config, and
--   the thread that asks the lidars; proofs in Listener/Replaced, Watched and Woken.
-- - Gnss: GNSSClient over a parser that is a parameter; proofs in Gnss/Logging.
-- - Hardware: the boards' headers; proofs in Hardware/Boards.
-- - Gpio: GpioClient; proofs in Gpio/Debounce and Gpio/Leds.
-- - FileSystem: FileSystemClient over a record of the medium's answers; FileSystem/Sessions also
--   has the head of stateWatcher; proofs there, in FileSystem/Frozen and in FileSystem/Manifest.
--   FileSystem/Listing has the list of a session's files, with its proof.
-- - Laz: code/save_laz.cpp, saveLaz over LASzip's calls; proofs in Laz/Counts on the decimation,
--   Laz/Box, Laz/Written and Laz/Total.
-- - FakePps: code/fake_pps.cpp, a program of its own; proofs in FakePps/Sentence and
--   FakePps/Pulses.
-- - Rtk: extras/rtkNmea, a program that listens to the scanner's publisher; Rtk/Ntrip has its
--   client of a caster, Rtk/Config its main function with the configuration file, over a JSON
--   library that is a parameter. Proofs: Rtk/Config/Paths, Written, Restart and Starts on the
--   file, Rtk/Buffer, Messages and Lines on the saved files, Rtk/Ntrip/Stream on the bytes and
--   Rtk/Ntrip/Chain on the states.
-- - Camera: extras/libcamera/LibCameraWrapper.cpp; Camera/Controls has setControlNumeric,
--   Camera/Streams the buffers and the rows of an image, and Camera/Life the camera over several
--   starts, with the configuration of extras/libcamera/main.cpp. Proofs in Camera/Photos, Pace
--   and Trigger, in Camera/Controls, in Camera/Streams/Grouped and Rows, and in
--   Camera/Life/Lasting, Posts and Reported. Camera/Program is the rest of that main.cpp, with
--   proofs in Camera/Program/Saved and Camera/Program/Routes.
-- - App: the globals of code/main.cpp and the locals of stateWatcher as one record, what the
--   other threads do as events, and the triggers; proofs in App/Triggers. App/Web has the web
--   server's routes and the environment variables, App/Startup what main's threads do first, the
--   keyboard and the beep at a GNSS fix.
-- - Publisher: code/publisher.cpp and code/utils; proofs in Publisher/Reports, and in
--   Publisher/Relay with the programs that listen, Rtk and Camera/Program.
-- - Watcher: one round of stateWatcher. Watcher/Steps has the steps, as functions from a world to
--   an outcome; Saving the files; Scan, Scanning and Stopping the branches. Proofs: Rules has the
--   rules for sequences of steps, Safe and Keeps what they rely on and what the other threads
--   leave true, Primitives, Saves, Logged, Saved, Branches and Rounds the steps in turn, Errors
--   the error states, Files what is written. Changes has the rules for what steps change, Chunks
--   the files that they add; Started begins with main's threads; Timing and Lasting are about the
--   deadlines of a stop scan; Adding, Counting, Resting and Numbered go through the steps again.
-- - Tests: concrete inputs.
--
-- Interleaving. A world carries a schedule of batches of events. A batch happens wherever
-- stateWatcher sleeps, reads the clock or waits for sync; the schedule is arbitrary. What happens
-- between two statements of stateWatcher without a wait is not modelled, nor are the mutexes. In
-- Camera a completed request is one step, which may come between the two stores that follow an edge.
--
-- Fuel. The parameter loop has fuel 256: its index counts to 255, and one test more ends it.
-- `iterations n` is n rounds of the endless loop. The loops of saveLaz have one round more than
-- the buffer's size as fuel, as every round moves their index on by one at least; running out of it
-- is a failure.
--
-- Numbers. A uint64_t, uint32_t, uint16_t or uint8_t that is counted up is reduced modulo its
-- width; nanoseconds, indices and chunk numbers are unbounded. A float is its bit pattern. Text
-- is a list of bytes.
--
-- Not modelled: reports and console output, the SDK, serial port, LASzip, Boost.Asio, libcamera
-- and HTTP libraries, the metadata of the camera's frames and the controls that it reports. A
-- Boost.Asio wait that has expired and is cancelled before its handler runs is taken as
-- cancelled.
pub mod Prelude
pub mod States
pub mod Livox
pub mod Gnss
pub mod Hardware
pub mod Gpio
pub mod FileSystem
pub mod Laz
pub mod FakePps
pub mod Rtk
pub mod Camera
pub mod App
pub mod Publisher
pub mod Watcher
pub mod Tests
