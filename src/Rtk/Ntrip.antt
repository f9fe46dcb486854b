-- ===== src/Rtk/Ntrip.antt =====
-- extras/rtkNmea/ntrip.cpp: the client of a caster. Boost.Asio is the events: what it completes an
-- operation or a wait with. A wait that is cancelled or set again is not completed, and the handlers
-- of cancelled operations run before any timer is due, as they are queued at once. The writes of GGA
-- sentences, which come every second beside the connection's operations, are kept apart: their
-- handlers only print.
pub mod Stream
pub mod Chain
use mandeye_controller.Prelude.Options.{◌>>=◌}
use mandeye_controller.Prelude.{
  ℕ, zero, suc, ◌&&◌, Bool, true, false, Option, none, some, List, [], ◌∷◌, ◌++◌, Text, length,
  take, drop, if◌then◌else◌,
}

-- What an asynchronous operation is for.
pub data Op : Type 0 where
  resolving connecting writing reading_headers reading_stream : Op

-- `response` is the stream buffer, `ops` the operations in flight, `cancelled` those whose handlers
-- get operation_aborted, `reconnect` and `watchdog` tell whether a timer's wait is pending,
-- `delivered` is what the callback was given, and `gga_writes` are the sentences being written.
pub record Client : Type 0 where
  pub response : List ℕ
  pub header_parsed : Bool
  pub ops : List Op
  pub cancelled : List Op
  pub reconnect : Bool
  pub watchdog : Bool
  pub delivered : List (List ℕ)
  pub gga_writes : List Text

-- The k-th operation in flight completes, without an error or with one; a read brings bytes, which
-- stay in the buffer when an error follows. A GGA sentence is due, when `is_open` says whether the
-- socket is open, and the k-th of those being written is done, or has failed.
pub data Event : Type 0 where
  completed : (k : ℕ) (ok : Bool) (bytes : List ℕ) → Event
  aborted : (bytes : List ℕ) → Event
  reconnect_due watchdog_due : Event
  gga_due : (is_open : Bool) (sentence : Text) → Event
  gga_written : (k : ℕ) → Event

-- A wait that is pending is replaced.
unfoldable pub schedule_reconnect : Client → Client
schedule_reconnect c = record c { reconnect = true }

abbrev pub begin : Op → Client → Client
begin o c = record c { ops = c.ops ++ (o ∷ []) }

unfoldable pub do_connect : Client → Client
do_connect c = begin resolving c

-- The constructor.
abbrev pub made : Client
made = record {
  response = [];
  header_parsed = false;
  ops = [];
  cancelled = [];
  reconnect = false;
  watchdog = false;
  delivered = [];
  gga_writes = [];
}

unfoldable pub start : Client → Client
unfolding do_connect
start c = do_connect c

-- The resolver has no part in the socket, whose operations alone are cancelled.
unfoldable pub on_socket : List Op → List Op
on_socket [] = []
on_socket (resolving ∷ ops) = on_socket ops
on_socket (o ∷ ops) = o ∷ on_socket ops

unfoldable pub off_socket : List Op → List Op
off_socket [] = []
off_socket (resolving ∷ ops) = resolving ∷ off_socket ops
off_socket (o ∷ ops) = off_socket ops

unfoldable pub stop : Client → Client
unfolding on_socket off_socket
stop c = record c {
  ops = off_socket c.ops;
  cancelled = c.cancelled ++ on_socket c.ops;
  reconnect = false;
  watchdog = false;
}

unfoldable pub start_watchdog : Client → Client
start_watchdog c = record c { watchdog = true }

unfoldable pub stop_watchdog : Client → Client
stop_watchdog c = record c { watchdog = false }

unfoldable pub send_request : Client → Client
send_request c = begin writing c

unfoldable pub read_headers : Client → Client
read_headers c = begin reading_headers c

unfoldable pub read_stream : Client → Client
read_stream c = begin reading_stream c

-- What is written to an open socket.
unfoldable pub send_gga : (is_open : Bool) → Text → Option Text
send_gga true sentence = some (sentence ++ (13 ∷ 10 ∷ []))
send_gga false sentence = none

-- A handler that gets an error.
unfoldable pub fail : Op → List ℕ → Client → Client
unfolding schedule_reconnect stop_watchdog
fail reading_headers bytes c = schedule_reconnect (record c { response = c.response ++ bytes })
fail reading_stream bytes c =
    schedule_reconnect (stop_watchdog (record c { response = c.response ++ bytes }))
fail o bytes c = schedule_reconnect c

-- The bytes that arrive go to the end of the buffer, and as many are taken from its front.
unfoldable pub stream_data : List ℕ → Client → Client
unfolding start_watchdog
stream_data bytes c =
    let watched = start_watchdog (record c { response = c.response ++ bytes }) in
    let n = length bytes in
    record watched {
      response = drop n watched.response;
      delivered = watched.delivered ++ (take n watched.response ∷ []);
    }

-- A handler that gets no error.
unfoldable pub succeed : Op → List ℕ → Client → Client
unfolding send_request read_headers read_stream stream_data
succeed resolving bytes c = begin connecting c
succeed connecting bytes c = send_request c
succeed writing bytes c = read_headers c
succeed reading_headers bytes c =
    read_stream (record c { response = c.response ++ bytes; header_parsed = true })
succeed reading_stream bytes c = read_stream (stream_data bytes c)

abbrev handle : Bool → Op → List ℕ → Client → Client
handle true o bytes c = succeed o bytes c
handle false o bytes c = fail o bytes c

unfoldable pub pick {ℓ} : {A : Type ℓ} → ℕ → List A → Option (A × List A)
pick k [] = none
pick zero (o ∷ ops) = some (o, ops)
pick (suc k) (o ∷ ops) = pick k ops >>= λ (p, rest). some (p, o ∷ rest)

abbrev is_none : List Op → Bool
is_none [] = true
is_none (o ∷ ops) = false

abbrev pub write_gga : Option Text → Client → Client
write_gga none c = c
write_gga (some text) c = record c { gga_writes = c.gga_writes ++ (text ∷ []) }

-- `none` for an event that cannot happen.
unfoldable pub step : Event → Client → Option Client
unfolding succeed fail do_connect stop schedule_reconnect send_gga pick
step (completed k ok bytes) c =
    pick k c.ops >>= λ (o, rest). some (handle ok o bytes (record c { ops = rest }))
step (aborted bytes) c =
    pick 0 c.cancelled >>= λ (o, rest). some (fail o bytes (record c { cancelled = rest }))
step reconnect_due c =
    if is_none c.cancelled && c.reconnect
    then some (do_connect (record c { reconnect = false }))
    else none
step watchdog_due c =
    if is_none c.cancelled && c.watchdog
    then some (schedule_reconnect (stop (record c { watchdog = false })))
    else none
step (gga_due is_open sentence) c = some (write_gga (send_gga is_open sentence) c)
step (gga_written k) c =
    pick k c.gga_writes >>= λ (text, rest). some (record c { gga_writes = rest })

unfoldable pub steps : List Event → Client → Option Client
unfolding step
steps [] c = some c
steps (e ∷ es) c = step e c >>= steps es
