-- ===== src/FakePps.antt =====
-- code/fake_pps.cpp: a pulse each second on the lidars' sync lines, and a GPRMC sentence on their
-- serial ports. gmtime and the GPIO chip are parameters; what the thread does is a list of actions.
pub mod Sentence
pub mod Pulses
use Prim.Native.Nat.{bit_xor}
use mandeye_controller.Prelude.{
  ℕ, zero, suc, ◌+◌, ◌*◌, ◌/◌, ◌%◌, Option, some, List, [], ◌∷◌, ◌++◌, map, Text, codes, take,
}
use mandeye_controller.Prelude.Decimal.{padded}
use mandeye_controller.Prelude.Options.{◌>>=◌}
use mandeye_controller.Gnss.{hex_digit}

pub record Timestamp : Type 0 where
  pub hours : ℕ
  pub mins : ℕ
  pub secs : ℕ
  pub day : ℕ
  pub month : ℕ
  pub year : ℕ

abbrev pub buffer_len : ℕ
buffer_len = 128

-- snprintf into a buffer of `buffer_len` bytes, the last of which is the terminator.
abbrev pub snprintf : Text → Text
snprintf s = take 127 s

-- %02d of a uint8_t.
abbrev two : ℕ → Text
two n = padded 2 n

-- The text before it is cut.
unfoldable pub payload_of : Timestamp → Text
payload_of ts =
    codes "GPRMC,"
    ++ (two ts.hours
        ++ (two ts.mins
            ++ (two ts.secs
                ++ (codes ".00,A,5109.0262308,N,11401.8407342,W,0.004,133.4,"
                    ++ (two ts.day ++ (two ts.month ++ (two ts.year ++ codes ",0.0,E,D")))))))

unfoldable pub checksum_from : ℕ → Text → ℕ
checksum_from sum [] = sum
checksum_from sum (c ∷ s) = checksum_from (bit_xor sum c % 256) s

-- %02X of a uint8_t.
abbrev pub hex_byte : ℕ → Text
hex_byte n = hex_digit (n / 16) ∷ hex_digit (n % 16) ∷ []

-- The two calls of snprintf: the payload as it is cut, and the frame around it.
unfoldable pub framed : Text → Text
unfolding checksum_from
framed text =
    let payload = snprintf text in
    snprintf (36 ∷ (payload ++ (42 ∷ (hex_byte (checksum_from 0 payload) ++ (10 ∷ [])))))

unfoldable pub produce_nmea : Timestamp → Text
unfolding payload_of framed
produce_nmea ts = framed (payload_of ts)

-- The fields of std::tm that are used, for a time from 1970 on.
pub record Tm : Type 0 where
  pub tm_hour : ℕ
  pub tm_min : ℕ
  pub tm_sec : ℕ
  pub tm_mday : ℕ
  pub tm_mon : ℕ
  pub tm_year : ℕ

-- Each field becomes a uint8_t; the year counts from 2000.
unfoldable pub get_timestamp_from_sec : (ℕ → Tm) → ℕ → Timestamp
get_timestamp_from_sec gmtime seconds =
    let t = gmtime seconds in
    record {
      hours = t.tm_hour % 256;
      mins = t.tm_min % 256;
      secs = t.tm_sec % 256;
      day = t.tm_mday % 256;
      month = (t.tm_mon + 1) % 256;
      year = (t.tm_year + 156) % 256;
    }

-- Lines and ports are numbers.
pub data Action : Type 0 where
  sleep_until sleep_for : ℕ → Action
  set_value : (line value : ℕ) → Action
  write : (port : ℕ) → Text → Action
  release : (line : ℕ) → Action

-- The pins' lines, each requested as an output that is LOW; `none` is the abort.
unfoldable pub open_lines : (get_line request : ℕ → Option ℕ) → List ℕ → Option (List ℕ)
open_lines get_line request [] = some []
open_lines get_line request (pin ∷ pins) = get_line pin >>= λ line. request line >>= λ requested.
    open_lines get_line request pins >>= λ lines. some (requested ∷ lines)

abbrev pub rate : ℕ
rate = 1000

module _ (gmtime : ℕ → Tm) (ports lines : List ℕ) where
  -- One pass of the loop with the time of its wake-up.
  unfoldable pub one_second : ℕ → List Action × ℕ
  unfolding get_timestamp_from_sec produce_nmea
  one_second millis =
      let next = millis + rate in
      let ts = get_timestamp_from_sec gmtime (next / 1000) in
      (
        (sleep_until millis ∷ map (λ l. set_value l 1) lines)
            ++ ((sleep_for 100 ∷ map (λ l. set_value l 0) lines)
                ++ (map (λ p. write p (produce_nmea ts)) ports ++ (sleep_until next ∷ []))),
        next,
      )

  -- That many passes before `stop` is set.
  unfoldable pub seconds : ℕ → ℕ → List Action
  unfolding one_second
  seconds zero millis = []
  seconds (suc n) millis = let (actions, next) = one_second millis in actions ++ seconds n next

  unfoldable pub clean_up : List ℕ → List Action
  clean_up [] = []
  clean_up (l ∷ ls) = set_value l 0 ∷ release l ∷ clean_up ls

  -- The thread from the lines on; `now` is the clock in milliseconds.
  unfoldable pub one_second_thread : (now passes : ℕ) → List Action
  unfolding seconds clean_up
  one_second_thread now passes = seconds passes ((now + rate) / rate * rate) ++ clean_up lines
