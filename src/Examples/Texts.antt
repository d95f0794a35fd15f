-- ===== src/Examples/Texts.antt =====
-- Escapes.
use fasthttp.Base.{[], ◌≡◌, arith, codes}
use fasthttp.Bytesconv.Quote.{append_quoted_arg, decode_arg_append}
use fasthttp.Bytesconv.Quote.RoundTrip.{decode_arg_append-append_quoted_arg}

decode_arg_append-append_quoted_arg_example :
    decode_arg_append (codes "x") (append_quoted_arg [] (codes "a b&%")) ≡ codes "xa b&%"
decode_arg_append-append_quoted_arg_example =
    decode_arg_append-append_quoted_arg (codes "x") (codes "a b&%")
      (omega arith, (omega arith, (omega arith, (omega arith, (omega arith, tt)))))
