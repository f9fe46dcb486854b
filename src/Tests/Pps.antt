-- ===== src/Tests/Pps.antt =====
-- The pulse generator on concrete inputs.
use mandeye_controller.Prelude.{ℕ, ◌/◌, ◌<◌, ◌≡◌, refl, some, [], ◌∷◌, ◌++◌, arith, length, codes}
use mandeye_controller.Prelude.Decimal.{padded, decimal}
use mandeye_controller.FakePps.{
  Timestamp, Tm, payload_of, checksum_from, produce_nmea, buffer_len, one_second_thread,
}
use mandeye_controller.FakePps.Sentence.{read_sentence, read_sentence-produce_nmea}
use mandeye_controller.FakePps.Pulses.{given_back, timeline, pulses, one_second_thread-pulses}

abbrev noon : Timestamp
noon = record { hours = 12; mins = 0; secs = 5; day = 1; month = 2; year = 25 }

noon_payload :
    payload_of noon
    ≡ codes "GPRMC,120005.00,A,5109.0262308,N,11401.8407342,W,0.004,133.4,010225,0.0,E,D"
unfolding payload_of padded decimal
noon_payload = refl

read_sentence-produce_nmea_example :
    (read_sentence (produce_nmea noon) ≡ some (payload_of noon, checksum_from 0 (payload_of noon)))
    × (length (produce_nmea noon) < buffer_len)
read_sentence-produce_nmea_example =
    read_sentence-produce_nmea noon
      (omega arith, (omega arith, (omega arith, (omega arith, (omega arith, omega arith)))))

-- A calendar of one day.
abbrev calendar : ℕ → Tm
calendar s = record {
  tm_hour = s / 3600;
  tm_min = s / 60;
  tm_sec = s;
  tm_mday = 1;
  tm_mon = 0;
  tm_year = 70;
}

one_second_thread-pulses_example :
    timeline 2500 (one_second_thread calendar (1 ∷ []) (4 ∷ 5 ∷ []) 2500 2)
    ≡ pulses calendar (1 ∷ []) (4 ∷ 5 ∷ []) 2 3 ++ given_back 5000 (4 ∷ 5 ∷ [])
one_second_thread-pulses_example = one_second_thread-pulses calendar (1 ∷ []) (4 ∷ 5 ∷ []) 2500 1
