-- ===== src/Wire/Buffer/RoundTrip.antt =====
-- Writing a number against reading it.
use stable_coin.Prelude.{ℕ, ◌+◌, ◌^◌, ◌<◌, ◌≡◌, Bytes, ◌++◌, length}
use stable_coin.Wire.Result.{ok}
use stable_coin.Wire.Varint.{sov, read_varint}
use stable_coin.Wire.Varint.Size.{groups, sov-length}
use stable_coin.Wire.Varint.Read.{read_varint-groups}
use stable_coin.Wire.Buffer.{encode_varint}
use stable_coin.Wire.Buffer.Writes.{Writes, encode_varint-Writes}

-- For every uint64 there are bytes, as many as `sov` says, that `encodeVarint` writes in front of
-- its offset, whatever stands around them, and from which the reading loop returns the number and
-- the index behind them, whatever follows.
varint_round_trip :
    (v : ℕ)
    → v < 2 ^ 64
    → (bs : Bytes) × (sov v ≡ length bs)
      × Writes (encode_varint v) bs
      × ((i : ℕ) (rest : Bytes) → read_varint 0 0 i (bs ++ rest) ≡ ok (v, i + length bs, rest))
varint_round_trip v h =
    (groups 9 v, sov-length v h, encode_varint-Writes v h, λ i rest. read_varint-groups v i rest h)
