-- ===== src/Stream/Control.antt =====
-- src/tunnel/stream.rs and src/tunnel/signaling.rs: the frames of the control stream.
use ezvpn.Prelude.{
  ℕ, ◌^◌, ◌≤◌, ◌<◌, ◌≡◌, refl, suc, subst, ◌∙◌, ap, List, [], ◌∷◌, ◌++◌, ◌||◌, Option, none, some,
  ltb, nat_eq, if◌then◌else◌, length, take, drop, Bytes, to_be4, to_be8, from_be, from_be-to_be4,
  from_be-to_be8, take-append_length, drop-append_length, length-append, arith,
}
use ezvpn.Error.{Result, ok, err, reject_if, ◌>>=◌, ◌>>◌, signaling, connection_lost}
use ezvpn.IpNet.{IpAddr}
use ezvpn.Signaling.{Codec, or_fail}

pub data DataMessageType : Type 0 where
  server_addrs_type ping_type pong_type : DataMessageType

unfoldable pub from_byte : ℕ → Option DataMessageType
from_byte b =
    if nat_eq b 1
    then some server_addrs_type
    else if nat_eq b 2
    then some ping_type
    else if nat_eq b 3
    then some pong_type
    else none

unfoldable pub as_byte : DataMessageType → ℕ
as_byte server_addrs_type = 1
as_byte ping_type = 2
as_byte pong_type = 3

pub data Frame : Type 0 where
  server_addrs : Bytes → Frame
  ping pong : ℕ → Frame

abbrev pub max_frame_body : ℕ
max_frame_body = 65547

abbrev pub heartbeat_body_len : ℕ
heartbeat_body_len = 9

heartbeat : (ℕ → Frame) → Bytes → Result Frame
heartbeat frame rest =
    if nat_eq (length rest) 8
    then ok (frame (from_be rest))
    else err (signaling "Heartbeat frame body")

classify_as : Option DataMessageType → Bytes → Result Frame
unfolding heartbeat
classify_as (some server_addrs_type) rest = ok (server_addrs rest)
classify_as (some ping_type) rest = heartbeat ping rest
classify_as (some pong_type) rest = heartbeat pong rest
classify_as none rest = err (signaling "Unknown frame message type")

unfoldable pub classify : Bytes → Result Frame
unfolding classify_as
classify [] = err (signaling "Empty frame body")
classify (type_byte ∷ rest) = classify_as (from_byte type_byte) rest

-- The bytes appended for the addresses, whose JSON is the codec's.
unfoldable pub encode_server_addrs_frame : Codec (List IpAddr) → List IpAddr → Result Bytes
encode_server_addrs_frame codec msg = do
  body ← or_fail (codec.to_vec msg) (signaling "Failed to encode server addrs")
  reject_if (ltb max_frame_body (suc (length body))) (signaling "Server addrs frame too large")
  ok (to_be4 (suc (length body)) ++ (as_byte server_addrs_type ∷ body))

pub decode_server_addrs : Codec (List IpAddr) → Bytes → Result (List IpAddr)
decode_server_addrs codec dat =
    or_fail (codec.from_slice dat) (signaling "Failed to decode server addrs")

unfoldable pub encode_heartbeat_frame : DataMessageType → ℕ → Bytes
encode_heartbeat_frame kind seq = to_be4 heartbeat_body_len ++ (as_byte kind ∷ to_be8 seq)

-- The body of an announced length, and the rest of the stream.
frame_of : ℕ → Bytes → Result (Option (Bytes × Bytes))
frame_of body_len stream =
    if nat_eq body_len 0 || ltb max_frame_body body_len
    then err (signaling "Invalid frame length")
    else if ltb (length stream) body_len
    then err (connection_lost "control stream read error mid-frame")
    else ok (some (take body_len stream, drop body_len stream))

-- A body and the rest of the stream, or nothing at the end of the stream.
pub read_frame : Bytes → Result (Option (Bytes × Bytes))
unfolding frame_of
read_frame [] = ok none
read_frame (a ∷ b ∷ c ∷ d ∷ stream) = frame_of (from_be (a ∷ b ∷ c ∷ d ∷ [])) stream
read_frame _ = err (connection_lost "control stream read error")

frame_of-append :
    (body rest : Bytes)
    → 1 ≤ length body
    → length body ≤ max_frame_body
    → frame_of (length body) (body ++ rest) ≡ ok (some (body, rest))
unfolding frame_of
frame_of-append body rest full fits =
    rw (take-append_length body rest, drop-append_length body rest)
      (ground (arith, length-append body rest))

read_frame-append :
    (body rest : Bytes)
    → 1 ≤ length body
    → length body ≤ max_frame_body
    → read_frame (to_be4 (length body) ++ (body ++ rest)) ≡ ok (some (body, rest))
unfolding read_frame
read_frame-append body rest full fits =
    ap (λ (n : ℕ). frame_of n (body ++ rest)) (from_be-to_be4 (length body) (omega arith))
    ∙ frame_of-append body rest full fits

-- A ping or a pong is read from the stream with its sequence number, and what follows it is left.
pub read-encode_heartbeat :
    (seq : ℕ) (rest : Bytes)
    → seq < 2 ^ 64
    → (read_frame (encode_heartbeat_frame ping_type seq ++ rest)
        ≡ ok (some (as_byte ping_type ∷ to_be8 seq, rest)))
      × (classify (as_byte ping_type ∷ to_be8 seq) ≡ ok (ping seq))
      × (read_frame (encode_heartbeat_frame pong_type seq ++ rest)
          ≡ ok (some (as_byte pong_type ∷ to_be8 seq, rest)))
      × (classify (as_byte pong_type ∷ to_be8 seq) ≡ ok (pong seq))
unfolding encode_heartbeat_frame classify heartbeat from_byte as_byte
read-encode_heartbeat seq rest small = (
  read_frame-append (as_byte ping_type ∷ to_be8 seq) rest (omega arith) (omega arith),
  ap (λ (n : ℕ). ok (ping n)) (from_be-to_be8 seq small),
  read_frame-append (as_byte pong_type ∷ to_be8 seq) rest (omega arith) (omega arith),
  ap (λ (n : ℕ). ok (pong n)) (from_be-to_be8 seq small),
)

encoded :
    (codec : Codec (List IpAddr)) (msg : List IpAddr) (body wire : Bytes)
    → codec.to_vec msg ≡ some body
    → encode_server_addrs_frame codec msg ≡ ok wire
    → (suc (length body) ≤ max_frame_body)
      × (to_be4 (suc (length body)) ++ (as_byte server_addrs_type ∷ body) ≡ wire)
unfolding encode_server_addrs_frame
encoded codec msg body wire wrote made = ground (arith, wrote)

-- The server's addresses are read from the stream as the server encoded them, if the codec
-- decodes what it encodes, and frames that follow are left.
pub read-encode_server_addrs :
    (codec : Codec (List IpAddr)) (msg : List IpAddr) (body rest wire : Bytes)
    → codec.to_vec msg ≡ some body
    → codec.from_slice body ≡ some msg
    → encode_server_addrs_frame codec msg ≡ ok wire
    → (read_frame (wire ++ rest) ≡ ok (some (as_byte server_addrs_type ∷ body, rest)))
      × (classify (as_byte server_addrs_type ∷ body) ≡ ok (server_addrs body))
      × (decode_server_addrs codec body ≡ ok msg)
unfolding encode_server_addrs_frame classify from_byte as_byte decode_server_addrs
read-encode_server_addrs codec msg body rest wire wrote read made =
    let (fits, at) = encoded codec msg body wire wrote made in
    (
      subst
          (λ (w : Bytes).
            read_frame (w ++ rest) ≡ ok (some (as_byte server_addrs_type ∷ body, rest)))
          at (read_frame-append (as_byte server_addrs_type ∷ body) rest (omega arith) fits),
      refl,
      rw read refl,
    )
