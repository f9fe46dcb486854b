-- ===== src/Gnss.antt =====
-- code/gnss.h and code/gnss.cpp: the GNSS client. The sentence parser minmea and what it prints
-- of a sentence are the instance argument `Minmea`; the serial line gives one line at a time.
pub mod Logging
use mandeye_controller.Prelude.{
  ℕ, ◌+◌, ◌/◌, ◌%◌, ◌^◌, Bool, true, false, ◌&&◌, ◌||◌, Option, none, some, List, [], ◌∷◌, ◌++◌,
  ltb, leb, ◌==◌, if◌then◌else◌, Text, codes,
}
use mandeye_controller.Prelude.Int.{ℤ}
use mandeye_controller.Prelude.Decimal.{decimal, decimal_int}
use mandeye_controller.Livox.{Doubles}

-- minmea_check(…, true), minmea_parse_gga, and the fields of minmea_sentence_gga as they are
-- used: the integers, and the numbers of minmea_tocoord and minmea_tofloat as a stream prints them.
pub record Minmea (G : Type 0) : Type 0 where
  pub check : Text → Bool
  pub parse_gga : Text → Option G
  pub latitude : G → Text
  pub longitude : G → Text
  pub altitude : G → Text
  pub hdop : G → Text
  pub height : G → Text
  pub dgps_age : G → Text
  pub satellites_tracked : G → ℤ
  pub hours : G → ℤ
  pub minutes : G → ℤ
  pub seconds : G → ℤ
  pub fix_quality : G → ℤ

-- The members of GNSSClient that carry state.
pub record Client (G : Type 0) : Type 0 where
  pub buffer : List Text
  pub rawbuffer : List Text
  pub last_line : Text
  pub is_logging : Bool
  pub last_gga : Option G
  pub message_count : ℕ

abbrev pub space : Text
space = 32 ∷ []

module _ ⦃fl : Doubles⦄ where
  open fl use {of_nat, mul, div, to_u64}

  -- static_cast<uint_least64_t>(laserTimestamp * 1000000000.0), where laserTimestamp is
  -- double(m_timestamp)/1e9 of the provider.
  unfoldable pub laser_nanos : ℕ → ℕ
  laser_nanos stamp = to_u64 (mul (div (of_nat stamp) (of_nat 1000000000)) (of_nat 1000000000))

  unfoldable pub raw_entry_to_line : Text → ℕ → ℕ → Text
  unfolding laser_nanos
  raw_entry_to_line line stamp millis =
      decimal (laser_nanos stamp) ++ (space ++ (decimal millis ++ (space ++ (line ++ space))))

  module _ {G : Type 0} ⦃mm : Minmea G⦄ where
    unfoldable pub gga_to_csv_line : G → ℕ → ℕ → Text
    unfolding laser_nanos
    gga_to_csv_line gga stamp millis =
        decimal (laser_nanos stamp)
        ++ (space
            ++ (mm.latitude gga
                ++ (space
                    ++ (mm.longitude gga
                        ++ (space
                            ++ (mm.altitude gga
                                ++ (space
                                    ++ (mm.hdop gga
                                        ++ (space
                                            ++ (decimal_int (mm.satellites_tracked gga)
                                                ++ (space
                                                    ++ (mm.height gga
                                                        ++ (space
                                                            ++ (mm.dgps_age gga
                                                            ++ (space
                                                            ++ (decimal_int (mm.hours gga)
                                                            ++ (codes ":"
                                                            ++ (decimal_int (mm.minutes gga)
                                                            ++ (codes ":"
                                                            ++ (decimal_int (mm.seconds gga)
                                                            ++ (space
                                                            ++ (decimal_int (mm.fix_quality gga)
                                                            ++ (space
                                                            ++ (decimal millis
                                                            ++ 10 ∷ []))))))))))))))))))))))))

    -- One round of `worker` for a line that the serial port gave; `stamp` is the laser's clock.
    unfoldable pub worker_line : Text → ℕ → ℕ → Client G → Client G
    unfolding raw_entry_to_line gga_to_csv_line
    worker_line line stamp millis c =
        let heard : Client G = record c { last_line = line } in
        let raw : Client G = record heard {
          rawbuffer = heard.rawbuffer ++ (raw_entry_to_line line stamp millis ∷ []);
        } in
        if mm.check line
        then elim (mm.parse_gga line) [
          | none ↦ raw
          | some gga ↦ record raw {
            last_gga = some gga;
            message_count = (raw.message_count + 1) % 2 ^ 32;
            buffer =
                if raw.is_logging
                then raw.buffer ++ (gga_to_csv_line gga stamp millis ∷ [])
                else raw.buffer;
          }
        ]
        else heard

module _ {G : Type 0} where
  unfoldable pub start_log : Client G → Client G
  start_log c = record c { buffer = []; rawbuffer = []; is_logging = true }

  unfoldable pub stop_log : Client G → Client G
  stop_log c = record c { is_logging = false }

  unfoldable pub retrieve_data : Client G → List Text × Client G
  retrieve_data c = (c.buffer, record c { buffer = [] })

  unfoldable pub retrieve_raw_data : Client G → List Text × Client G
  retrieve_raw_data c = (c.rawbuffer, record c { rawbuffer = [] })

-- std::isprint and std::isspace in the C locale, of a byte.
abbrev pub is_print : ℕ → Bool
is_print c = leb 32 c && leb c 126

abbrev pub is_space : ℕ → Bool
is_space c = c == 32 || (leb 9 c && leb c 13)

abbrev pub hex_digit : ℕ → ℕ
hex_digit d = if ltb d 10 then d + 48 else d + 55

-- "<0x%02X>" of a byte.
abbrev pub escaped : ℕ → Text
escaped c = 60 ∷ 48 ∷ 120 ∷ hex_digit (c / 16) ∷ hex_digit (c % 16) ∷ 62 ∷ []

unfoldable pub sanitize_line : Text → Text
sanitize_line [] = []
sanitize_line (c ∷ s) =
    if is_print c || is_space c then c ∷ sanitize_line s else escaped c ++ sanitize_line s
