-- ===== src/Examples/Numbers.antt =====
-- Numbers in text.
use mathlib.Core.List.{cons-ne-nil}
use fasthttp.Base.{
  ◌^◌, ◌<◌, [], ◌++◌, some, none, ◌≡◌, ◌≢◌, refl, arith, Bytes, All, codes, pos, ◌%◌,
}
use fasthttp.Bytesconv.Decimal.{parse_uint}
use fasthttp.Bytesconv.Decimal.Parse.{IsDigit, value, parse_uint_sound}
use fasthttp.Bytesconv.Decimal.Wrap.{parse_uint_wraps}
use fasthttp.Bytesconv.Tables.{hex2int}
use fasthttp.Bytesconv.Hex.{io_error, read_hex_int, write_hex_int}
use fasthttp.Bytesconv.Hex.RoundTrip.{read_hex_int-write_hex_int}

parse_uint_sound_example :
    (codes "4096" ≢ [])
    × All IsDigit (codes "4096")
    × (4096 ≡ value 0 (codes "4096") % 2 ^ 64)
    × (4096 < 2 ^ 63)
unfolding parse_uint
parse_uint_sound_example =
    parse_uint_sound (codes "4096") 4096
      (omega arith, (omega arith, (omega arith, (omega arith, tt)))) refl

parse_uint_wraps_example :
    parse_uint (codes "25000000000000000000") ≡ (pos 6553255926290448384, none)
parse_uint_wraps_example =
    parse_uint_wraps (codes "2500000000000000000") b'0' (cons-ne-nil _ _)
      (
        (omega arith, omega arith),
        (
          (omega arith, omega arith),
          (
            (omega arith, omega arith),
            (
              (omega arith, omega arith),
              (
                (omega arith, omega arith),
                (
                  (omega arith, omega arith),
                  (
                    (omega arith, omega arith),
                    (
                      (omega arith, omega arith),
                      (
                        (omega arith, omega arith),
                        (
                          (omega arith, omega arith),
                          (
                            (omega arith, omega arith),
                            (
                              (omega arith, omega arith),
                              (
                                (omega arith, omega arith),
                                (
                                  (omega arith, omega arith),
                                  (
                                    (omega arith, omega arith),
                                    (
                                      (omega arith, omega arith),
                                      (
                                        (omega arith, omega arith),
                                        (
                                          (omega arith, omega arith),
                                          ((omega arith, omega arith), tt),
                                        ),
                                      ),
                                    ),
                                  ),
                                ),
                              ),
                            ),
                          ),
                        ),
                      ),
                    ),
                  ),
                ),
              ),
            ),
          ),
        ),
      )
      (omega arith, omega arith) (omega arith) (omega arith) (omega arith)

read_hex_int-write_hex_int_example :
    (out : Bytes) × (write_hex_int (pos 8096) ≡ some out)
    × (read_hex_int io_error (out ++ codes "\r\n") ≡ (pos 8096, none, codes "\r\n"))
unfolding hex2int
read_hex_int-write_hex_int_example =
    read_hex_int-write_hex_int io_error 8096 (codes "\r\n") (omega arith) refl
