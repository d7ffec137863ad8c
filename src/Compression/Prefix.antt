-- ===== src/Compression/Prefix.antt =====
-- src/compression.rs: `decompress_prefix`, which reads a streaming decoder until it has enough. The
-- decoder of the zstd library is a parameter; the loop is on fuel, one unit for each byte wanted.
use moonclip.Prelude.{
  ℕ, zero, suc, ◌-◌, ◌≤◌, ◌≡◌, List, [], ◌++◌, true, false, Option, none, some, ◌==◌, ltb,
  if◌then◌else◌, length, min, take, length-append, length-take, arith, inl, inr, Bool-cases,
  Option-cases, ltb→lt,
}
use moonclip.Error.{Result, ok, err}
use moonclip.Error.MoonclipError.{compression}
use moonclip.Manifest.{CompressionAlgo, uncompressed, zstd}

-- `Decoder::new`, and `read` into a buffer of the given length: what it wrote, or a failure.
pub record Stream (D : Type 0) : Type 0 where
  pub new : List ℕ → Option D
  pub read : D → ℕ → Option (List ℕ × D)

-- A read never writes past its buffer.
unfoldable pub IsBounded : {D : Type 0} → Stream D → Type 0
IsBounded {D} s =
    (d : D) (n : ℕ) (bytes : List ℕ) (rest : D) → s.read d n ≡ some (bytes, rest) → length bytes ≤ n

module _ {D : Type 0} (s : Stream D) where
  unfoldable pub read_prefix : ℕ → ℕ → List ℕ → D → Result (List ℕ)
  read_prefix zero max_bytes out d = ok out
  read_prefix (suc fuel) max_bytes out d = elim (ltb (length out) max_bytes) [
    | false ↦ ok out
    | true ↦ elim (s.read d (max_bytes - length out)) [
      | none ↦ if ltb 0 (length out) then ok out else err compression
      | some (bytes, rest) ↦ elim (length bytes == 0) [
        | true ↦ ok out
        | false ↦ read_prefix fuel max_bytes (out ++ bytes) rest
      ]
    ]
  ]

  unfoldable pub decompress_prefix : List ℕ → CompressionAlgo → ℕ → Result (List ℕ)
  decompress_prefix bytes uncompressed max_bytes = ok (take (min (length bytes) max_bytes) bytes)
  decompress_prefix bytes (zstd level) max_bytes = elim (s.new bytes) [
    | none ↦ err compression
    | some d ↦ read_prefix max_bytes max_bytes [] d
  ]

  read_prefix_bound :
      (fuel max_bytes : ℕ) (out : List ℕ) (d : D) (result : List ℕ)
      → IsBounded s
      → length out ≤ max_bytes
      → read_prefix fuel max_bytes out d ≡ ok result
      → length result ≤ max_bytes
  unfolding read_prefix IsBounded
  read_prefix_bound zero max_bytes out d result law h e =
      let same : out ≡ result = cc e in rw (← same) h
  read_prefix_bound (suc fuel) max_bytes out d result law h e =
      elim (Bool-cases (ltb (length out) max_bytes)) [
        | inr enough ↦ let same : out ≡ result = cc (rw (enough, read_prefix) at e) in rw (← same) h
        | inl more ↦ elim (Option-cases (s.read d (max_bytes - length out))) [
          | inl failed ↦ elim (Bool-cases (ltb 0 (length out))) [
            | inl begun ↦
                let same : out ≡ result = cc (rw (more, failed, begun, read_prefix) at e) in
                rw (← same) h
            | inr nothing ↦ absurd cc (rw (more, failed, nothing, read_prefix) at e)
          ]
          | inr ((bytes, rest), got) ↦ elim (Bool-cases (length bytes == 0)) [
            | inl end ↦
                let same : out ≡ result = cc (rw (more, got, end, read_prefix) at e) in
                rw (← same) h
            | inr on ↦
                read_prefix_bound fuel max_bytes (out ++ bytes) rest result law
                  (omega (
                    arith,
                    length-append out bytes,
                    ltb→lt (length out) max_bytes more,
                    law d (max_bytes - length out) bytes rest got,
                  ))
                  (rw (more, got, on, read_prefix) at e)
          ]
        ]
      ]

  -- A sample is never longer than what was asked for.
  pub decompress_prefix-bound :
      (bytes : List ℕ) (algo : CompressionAlgo) (max_bytes : ℕ) (result : List ℕ)
      → IsBounded s
      → decompress_prefix bytes algo max_bytes ≡ ok result
      → length result ≤ max_bytes
  unfolding decompress_prefix
  decompress_prefix-bound bytes uncompressed max_bytes result law h =
      let same : take (min (length bytes) max_bytes) bytes ≡ result = cc h in
      rw (← same) (omega (arith, length-take (min (length bytes) max_bytes) bytes))
  decompress_prefix-bound bytes (zstd level) max_bytes result law h =
      elim (Option-cases (s.new bytes)) [
        | inl failed ↦ absurd cc (rw (failed, decompress_prefix) at h)
        | inr (d, is) ↦
            read_prefix_bound max_bytes max_bytes [] d result law (omega arith)
              (rw (is, decompress_prefix) at h)
      ]
