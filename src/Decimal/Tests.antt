-- ===== src/Decimal/Tests.antt =====
-- tcp_server.go and socket.go: the printing of 1203.
use muduo_go.Prelude.{ℕ, ◌≡◌, arith, ok, List}
use muduo_go.Decimal.{itod, uint2decimal_str}
use muduo_go.Decimal.Printing.{parse, AreDigits, itod-parse}

itod-parse_example :
    (ds : List ℕ) × (itod 1203 ≡ ok ds)
    × (uint2decimal_str 1203 ≡ ok ds)
    × (parse 0 ds ≡ 1203)
    × AreDigits ds
itod-parse_example = itod-parse 1203 (omega arith)
