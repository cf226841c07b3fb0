-- ===== src/Actions/ByteReader.antt =====
-- The reader over a byte slice of agent/internal/actions/sys.go, and the `io.LimitReader` around it.
pub mod Drained
use fos_next.Prelude.{
  ℕ, ◌+◌, ◌-◌, Bool, true, false, List, [], ◌∷◌, ◌++◌, Bytes, leb, ltb, ◌==◌, if◌then◌else◌, length,
  take, drop, min,
}

-- `byteSliceReader`
pub record ByteSliceReader : Type 0 where
  pub content : Bytes
  pub pos : ℕ

-- `bytesReaderOf`
unfoldable pub bytes_reader_of : Bytes → ByteSliceReader
bytes_reader_of b = record { content = b; pos = 0 }

-- What a `Read` yields: the bytes that it copied, and whether it returned `io.EOF`.
pub record Chunk : Type 0 where
  pub bytes : Bytes
  pub eof : Bool

-- `Read` into a buffer of `size` bytes
unfoldable pub read_slice : ℕ → ByteSliceReader → Chunk × ByteSliceReader
read_slice size r =
    if leb (length r.content) r.pos
    then (record { bytes = []; eof = true }, r)
    else (let p = take size (drop r.pos r.content) in
        (record { bytes = p; eof = false }, record r { pos = r.pos + length p }))

-- `io.LimitedReader`
pub record LimitedReader : Type 0 where
  pub source : ByteSliceReader
  pub left : ℕ

-- `bytesReader`
unfoldable pub bytes_reader : Bytes → LimitedReader
bytes_reader b = record { source = bytes_reader_of b; left = length b }

-- `LimitedReader.Read`
unfoldable pub read_limited : ℕ → LimitedReader → Chunk × LimitedReader
read_limited size r =
    if r.left == 0
    then (record { bytes = []; eof = true }, r)
    else (let (c, s) = read_slice (min size r.left) r.source in
        (c, record { source = s; left = r.left - length c.bytes }))

-- Reads into buffers of these sizes, up to the first `io.EOF`: the bytes, and whether it came.
unfoldable pub read_all_sized : List ℕ → LimitedReader → Bytes × Bool
read_all_sized [] r = ([], false)
read_all_sized (size ∷ sizes) r =
    let (c, r') = read_limited size r in
    let (more, eof) = read_all_sized sizes r' in
    if c.eof then (c.bytes, true) else (c.bytes ++ more, eof)
