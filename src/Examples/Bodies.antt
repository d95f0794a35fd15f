-- ===== src/Examples/Bodies.antt =====
-- Bodies.
use fasthttp.Base.{Bytes, List, [], ◌∷◌, ◌++◌, none, some, ◌≡◌, refl, arith, codes, pos}
use fasthttp.Bytesconv.Hex.{eof}
use fasthttp.Body.{exceeds, read_body_chunked, write_body_chunked}
use fasthttp.Body.RoundTrip.{joined, read_body_chunked-write_body_chunked}

abbrev reads : List Bytes
reads = codes "hello " ∷ codes "world" ∷ []

read_body_chunked-write_body_chunked_example :
    (text : Bytes) × (write_body_chunked reads ≡ some text)
    × (read_body_chunked eof (pos 20) (text ++ codes "GET") ≡ (joined reads, none, codes "GET"))
unfolding exceeds
read_body_chunked-write_body_chunked_example =
    read_body_chunked-write_body_chunked reads eof (pos 20) (codes "GET")
      (omega arith, (omega arith, tt)) refl
