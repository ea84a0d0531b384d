-- ===== src/Signaling/Framing.antt =====
-- src/tunnel/signaling.rs: `write_message` and `read_message`, over the bytes of a stream that has
-- ended. The vector of `len` bytes that the reader fills is its result.
use ezvpn.Prelude.{
  ℕ, ◌^◌, ◌<◌, ◌≡◌, subst, ◌∙◌, ap, [], ◌∷◌, ◌++◌, ltb, leb, if◌then◌else◌, length, take, drop,
  Bytes, to_be4, from_be, from_be-to_be4, arith,
}
use ezvpn.Error.{Result, ok, err, reject_if, ◌>>◌, signaling, network}

-- The bytes that are written, the length first.
unfoldable pub write_message : Bytes → Result Bytes
write_message dat = do
  reject_if (leb (2 ^ 32) (length dat)) (signaling "Message too large")
  ok (to_be4 (length dat) ++ dat)

-- `read_exact`: that many bytes, and the rest of the stream.
unfoldable pub read_exact : ℕ → Bytes → Result (Bytes × Bytes)
read_exact n stream =
    if ltb (length stream) n then err (network "early eof") else ok (take n stream, drop n stream)

unfoldable pub message_of : ℕ → ℕ → Bytes → Result (Bytes × Bytes)
message_of max_size len stream = do
  reject_if (ltb max_size len) (signaling "Message too large")
  read_exact len stream

unfoldable pub read_message : ℕ → Bytes → Result (Bytes × Bytes)
unfolding message_of
read_message max_size (a ∷ b ∷ c ∷ d ∷ stream) =
    message_of max_size (from_be (a ∷ b ∷ c ∷ d ∷ [])) stream
read_message max_size _ = err (network "early eof")

written_as :
    (dat wire : Bytes)
    → write_message dat ≡ ok wire
    → (length dat < 2 ^ 32) × (to_be4 (length dat) ++ dat ≡ wire)
unfolding write_message
written_as dat wire written = ground arith

read_prefix :
    (max_size : ℕ) (dat rest : Bytes)
    → length dat < 2 ^ 32
    → read_message max_size (to_be4 (length dat) ++ (dat ++ rest))
      ≡ message_of max_size (length dat) (dat ++ rest)
unfolding read_message
read_prefix max_size dat rest small =
    ap (λ (n : ℕ). message_of max_size n (dat ++ rest)) (from_be-to_be4 (length dat) small)

-- A message that announces more than the limit is refused.
pub too_large_refused :
    (max_size : ℕ) (dat rest wire : Bytes)
    → max_size < length dat
    → write_message dat ≡ ok wire
    → read_message max_size (wire ++ rest) ≡ err (signaling "Message too large")
unfolding message_of
too_large_refused max_size dat rest wire over written =
    let (small, at) = written_as dat wire written in
    subst (λ (w : Bytes). read_message max_size (w ++ rest) ≡ err (signaling "Message too large"))
      at (read_prefix max_size dat rest small ∙ ground arith)
