-- ===== src/Compression.antt =====
-- The two implementations of `Compressor` (app/compressor/compressor.go). The packages
-- compress/zlib and compress/lzw of Go are parameters, with what they document: what a reader gives
-- back is what the writer that was closed has compressed.
pub mod Hidden
use dynamiq.Prelude.{
  ℕ, ◌≤◌, ◌<◌, ◌^◌, ◌≡◌, refl, ap, ◌∙◌, Option, none, some, List, [], ◌∷◌, String, All,
  Option-cases, inl, inr,
}
use dynamiq.Prelude.Int.{ℤ, pos}
use dynamiq.Riak.{Bytes}
use dynamiq.App.{Compressor}
use dynamiq.Messages.RoundTrip.{IsInverse}

-- compress/zlib. A writer stands for itself and for the buffer that it writes to.
pub record Zlib : Type 1 where
  pub Writer : Type 0
  pub Reader : Type 0
  pub new_writer : Writer
  -- the writer afterwards, and the error
  pub write : Writer → Bytes → Writer × Option String
  pub close_writer : Writer → Writer
  -- what is in the buffer
  pub written : Writer → Bytes
  -- the reader of a compressed text, and the error if its header is not one
  pub new_reader : Bytes → Reader × Option String
  -- what `ReadFrom` gets out of a reader before the text ends or an error stops it
  pub read_from : Reader → Bytes × Option String
  -- after one write that succeeded, the closed writer has written a text that is read back
  pub reads_back :
      (value : Bytes)
      → (write new_writer value).1 ≡ none
      → let text = written (close_writer (write new_writer value).0) in
        ((new_reader text).1 ≡ none) × (read_from (new_reader text).0 ≡ (value, none))

module _ (zlib : Zlib) where
  open zlib use {new_writer, write, close_writer, written, new_reader, read_from, reads_back}

  -- The buffer is returned even if the write fails.
  unfoldable pub zlib_compress : Bytes → Bytes × Option String
  zlib_compress value = let (w, err) = write new_writer value in (written (close_writer w), err)

  -- Only a header that is refused is an error: what `ReadFrom` returns is ignored.
  abbrev read_all : zlib.Reader × Option String → Bytes × Option String
  read_all (r, some e) = ([], some e)
  read_all (r, none) = ((read_from r).0, none)

  unfoldable pub zlib_decompress : Bytes → Bytes × Option String
  zlib_decompress value = read_all (new_reader value)

  -- `NewZlibCompressor()`
  unfoldable pub new_zlib_compressor : Compressor
  unfolding zlib_compress zlib_decompress
  new_zlib_compressor = record { compress = zlib_compress; decompress = zlib_decompress }

  -- What was compressed without an error is decompressed to what it was, without an error.
  zlib_decompress-zlib_compress :
      (value : Bytes)
      → (zlib_compress value).1 ≡ none
      → zlib_decompress (zlib_compress value).0 ≡ (value, none)
  unfolding zlib_compress zlib_decompress
  zlib_decompress-zlib_compress value fits =
      let back = reads_back value fits in rw (back.0, back.1) refl

  -- What the messages of a queue rely on.
  new_zlib_compressor-IsInverse : IsInverse new_zlib_compressor
  unfolding new_zlib_compressor
  new_zlib_compressor-IsInverse value fits =
      ap (λ p. p.0) (zlib_decompress-zlib_compress value fits)

-- compress/lzw, with the order `lzw.LSB`.
pub record Lzw : Type 1 where
  pub Writer : Type 0
  pub Reader : Type 0
  pub new_writer : ℤ → Writer
  pub write : Writer → Bytes → Writer × Option String
  pub close_writer : Writer → Writer
  pub written : Writer → Bytes
  pub new_reader : Bytes → ℤ → Reader
  pub read_from : Reader → Bytes × Option String
  -- the width is from 2 to 8, and each byte is less than its power of two
  pub reads_back :
      (width : ℕ) (value : Bytes)
      → 2 ≤ width
      → width ≤ 8
      → All (λ byte. byte < 2 ^ width) value
      → let text = written (close_writer (write (new_writer (pos width)) value).0) in
        read_from (new_reader text (pos width)) ≡ (value, none)

module _ (lzw : Lzw) (lit_width : ℤ) where
  open lzw use {new_writer, write, close_writer, written, new_reader, read_from, reads_back}

  -- The error of the write is dropped.
  unfoldable pub lzw_compress : Bytes → Bytes × Option String
  lzw_compress value = (written (close_writer (write (new_writer lit_width) value).0), none)

  unfoldable pub lzw_decompress : Bytes → Bytes × Option String
  lzw_decompress value = ((read_from (new_reader value lit_width)).0, none)

  -- `NewLZWCompressor(width)`
  unfoldable pub new_lzw_compressor : Compressor
  unfolding lzw_compress lzw_decompress
  new_lzw_compressor = record { compress = lzw_compress; decompress = lzw_decompress }

  -- What fits the width is decompressed to what it was.
  lzw_decompress-lzw_compress :
      (width : ℕ) (value : Bytes)
      → lit_width ≡ pos width
      → 2 ≤ width
      → width ≤ 8
      → All (λ byte. byte < 2 ^ width) value
      → lzw_decompress (lzw_compress value).0 ≡ (value, none)
  unfolding lzw_compress lzw_decompress
  lzw_decompress-lzw_compress width value is_width wide narrow fits =
      rw (is_width, reads_back width value wide narrow fits) refl
