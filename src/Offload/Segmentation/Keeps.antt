-- ===== src/Offload/Segmentation/Keeps.antt =====
-- src/tunnel/offload.rs: writes among the headers of a packet.
use ezvpn.Prelude.{ℕ, ◌+◌, ◌≤◌, ◌<◌, ◌≡◌, inl, ◌∙◌, [], ◌∷◌, length, drop, Bytes, to_be2}
use ezvpn.Packet.{byte}
use ezvpn.Offload.Fields.{put}
use ezvpn.Offload.Writes.{length-put, drop-put, get_or-put, IsOctets, put-IsOctets, to_be2-IsOctets}

-- As long as before, with the same first byte, and the same behind the headers.
pub record Keeps (headers : ℕ) (p q : Bytes) : Type 0 where
  pub same_length : length q ≡ length p
  pub same_rest : drop headers q ≡ drop headers p
  pub same_first : byte q 0 ≡ byte p 0
  pub octets : IsOctets p → IsOctets q

pub Keeps-trans :
    {headers : ℕ} {p q r : Bytes} → Keeps headers p q → Keeps headers q r → Keeps headers p r
Keeps-trans h k = record {
  same_length = k.same_length ∙ h.same_length;
  same_rest = k.same_rest ∙ h.same_rest;
  same_first = k.same_first ∙ h.same_first;
  octets = λ o. k.octets (h.octets o);
}

pub put-Keeps :
    (headers i : ℕ) (xs p : Bytes)
    → 0 < i
    → i + length xs ≤ headers
    → IsOctets xs
    → Keeps headers p (put i xs p)
put-Keeps headers i xs p h k o = record {
  same_length = length-put i xs p;
  same_rest = drop-put headers i xs p k;
  same_first = get_or-put 0 i xs p 0 (inl h);
  octets = put-IsOctets i xs p o;
}

pub put2-Keeps :
    (headers i n : ℕ) (p : Bytes) → 0 < i → i + 2 ≤ headers → Keeps headers p (put i (to_be2 n) p)
put2-Keeps headers i n p h k = put-Keeps headers i (to_be2 n) p h k (to_be2-IsOctets n)

-- Clearing a field and writing it.
pub rewrite-Keeps :
    (headers i n : ℕ) (p : Bytes)
    → 0 < i
    → i + 2 ≤ headers
    → Keeps headers p (put i (to_be2 n) (put i (0 ∷ 0 ∷ []) p))
rewrite-Keeps headers i n p h k =
    Keeps-trans (put2-Keeps headers i 0 p h k) (put2-Keeps headers i n (put i (0 ∷ 0 ∷ []) p) h k)
