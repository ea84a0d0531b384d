-- ===== src/Offload/Writes.antt =====
-- src/tunnel/offload.rs: what writing into a packet changes, and what it leaves.
use ezvpn.Prelude.{
  ℕ, zero, suc, ◌+◌, ◌-◌, ◌≤◌, ◌<◌, ◌≡◌, refl, ◌∙◌, ap, [], ◌∷◌, length, take, drop, slice, get_or,
  Bytes, to_be2, to_be4, All, arith, ◌⊎◌, inl, inr,
}
use ezvpn.Offload.Fields.{put}

pub length-put : (i : ℕ) (xs p : Bytes) → length (put i xs p) ≡ length p
length-put zero xs [] = refl
length-put zero [] (b ∷ p) = refl
length-put zero (x ∷ xs) (b ∷ p) = ap suc (length-put zero xs p)
length-put (suc i) xs [] = refl
length-put (suc i) xs (b ∷ p) = ap suc (length-put i xs p)

pub take-put : (n i : ℕ) (xs p : Bytes) → n ≤ i → take n (put i xs p) ≡ take n p
take-put zero i xs p h = refl
take-put (suc n) zero xs p h = absurd (omega arith)
take-put (suc n) (suc i) xs [] h = refl
take-put (suc n) (suc i) xs (b ∷ p) h = ap (◌∷◌ b) (take-put n i xs p (omega arith))

pub take-put_within : (n i : ℕ) (xs p : Bytes) → take n (put i xs p) ≡ put i xs (take n p)
take-put_within zero zero xs p = refl
take-put_within zero (suc i) xs p = refl
take-put_within (suc n) zero xs [] = refl
take-put_within (suc n) zero [] (b ∷ p) = refl
take-put_within (suc n) zero (x ∷ xs) (b ∷ p) = ap (◌∷◌ x) (take-put_within n zero xs p)
take-put_within (suc n) (suc i) xs [] = refl
take-put_within (suc n) (suc i) xs (b ∷ p) = ap (◌∷◌ b) (take-put_within n i xs p)

pub drop-put : (n i : ℕ) (xs p : Bytes) → i + length xs ≤ n → drop n (put i xs p) ≡ drop n p
drop-put n zero xs [] h = refl
drop-put n zero [] (b ∷ p) h = refl
drop-put zero zero (x ∷ xs) (b ∷ p) h = absurd (omega arith)
drop-put (suc n) zero (x ∷ xs) (b ∷ p) h = drop-put n zero xs p (omega arith)
drop-put n (suc i) xs [] h = refl
drop-put zero (suc i) xs (b ∷ p) h = absurd (omega arith)
drop-put (suc n) (suc i) xs (b ∷ p) h = drop-put n i xs p (omega arith)

-- A write behind what is dropped moves to the front.
pub drop-put_behind :
    (n i k : ℕ) (xs p : Bytes) → n + i ≡ k → drop n (put k xs p) ≡ put i xs (drop n p)
drop-put_behind zero i k xs p h = ap (λ j. put j xs p) (omega arith)
drop-put_behind (suc n) i zero xs p h = absurd (omega arith)
drop-put_behind (suc n) zero (suc k) xs [] h = refl
drop-put_behind (suc n) (suc i) (suc k) xs [] h = refl
drop-put_behind (suc n) i (suc k) xs (b ∷ p) h = drop-put_behind n i k xs p (omega arith)

pub put-put : (i : ℕ) (xs ys p : Bytes) → length xs ≡ length ys → put i xs (put i ys p) ≡ put i xs p
put-put zero xs ys [] h = refl
put-put zero [] [] (b ∷ p) h = refl
put-put zero [] (y ∷ ys) (b ∷ p) h = absurd (omega arith)
put-put zero (x ∷ xs) [] (b ∷ p) h = absurd (omega arith)
put-put zero (x ∷ xs) (y ∷ ys) (b ∷ p) h = ap (◌∷◌ x) (put-put zero xs ys p (omega arith))
put-put (suc i) xs ys [] h = refl
put-put (suc i) xs ys (b ∷ p) h = ap (◌∷◌ b) (put-put i xs ys p h)

put-take : (n : ℕ) (p : Bytes) → put 0 (take n p) p ≡ p
put-take zero [] = refl
put-take zero (b ∷ p) = refl
put-take (suc n) [] = refl
put-take (suc n) (b ∷ p) = ap (◌∷◌ b) (put-take n p)

put-take-drop : (i n : ℕ) (p : Bytes) → put i (take n (drop i p)) p ≡ p
put-take-drop zero n p = put-take n p
put-take-drop (suc i) n [] = refl
put-take-drop (suc i) n (b ∷ p) = ap (◌∷◌ b) (put-take-drop i n p)

-- Writing what stands there.
pub put-slice : (i j : ℕ) (p : Bytes) → put i (slice i j p) p ≡ p
put-slice i j p = put-take-drop i (j - i) p

-- Bytes elsewhere are left.
pub get_or-put :
    (k i : ℕ) (xs p : Bytes) (d : ℕ)
    → (k < i) ⊎ (i + length xs ≤ k)
    → get_or (put i xs p) k d ≡ get_or p k d
get_or-put k zero xs [] d h = refl
get_or-put k zero [] (b ∷ p) d h = refl
get_or-put zero zero (x ∷ xs) (b ∷ p) d (inl h) = absurd (omega arith)
get_or-put zero zero (x ∷ xs) (b ∷ p) d (inr h) = absurd (omega arith)
get_or-put (suc k) zero (x ∷ xs) (b ∷ p) d (inl h) = absurd (omega arith)
get_or-put (suc k) zero (x ∷ xs) (b ∷ p) d (inr h) = get_or-put k zero xs p d (inr (omega arith))
get_or-put k (suc i) xs [] d h = refl
get_or-put zero (suc i) xs (b ∷ p) d h = refl
get_or-put (suc k) (suc i) xs (b ∷ p) d (inl h) = get_or-put k i xs p d (inl (omega arith))
get_or-put (suc k) (suc i) xs (b ∷ p) d (inr h) = get_or-put k i xs p d (inr (omega arith))

-- A slice before a write, one behind it, and the one that was written.
take-drop-put :
    (a n i : ℕ) (xs p : Bytes) → a + n ≤ i → take n (drop a (put i xs p)) ≡ take n (drop a p)
take-drop-put zero n i xs p h = take-put n i xs p (omega arith)
take-drop-put (suc a) n zero xs p h = absurd (omega arith)
take-drop-put (suc a) n (suc i) xs [] h = refl
take-drop-put (suc a) n (suc i) xs (b ∷ p) h = take-drop-put a n i xs p (omega arith)

pub slice-put_before :
    (a j i : ℕ) (xs p : Bytes) → a ≤ j → j ≤ i → slice a j (put i xs p) ≡ slice a j p
slice-put_before a j i xs p h k = take-drop-put a (j - a) i xs p (omega arith)

pub slice-put_behind :
    (a j i : ℕ) (xs p : Bytes) → i + length xs ≤ a → slice a j (put i xs p) ≡ slice a j p
slice-put_behind a j i xs p h = ap (take (j - a)) (drop-put a i xs p h)

take-put_all : (xs p : Bytes) → length xs ≤ length p → take (length xs) (put 0 xs p) ≡ xs
take-put_all [] p h = refl
take-put_all (x ∷ xs) [] h = absurd (omega arith)
take-put_all (x ∷ xs) (b ∷ p) h = ap (◌∷◌ x) (take-put_all xs p (omega arith))

take-drop-put_all :
    (i : ℕ) (xs p : Bytes) → i + length xs ≤ length p → take (length xs) (drop i (put i xs p)) ≡ xs
take-drop-put_all zero xs p h = take-put_all xs p (omega arith)
take-drop-put_all (suc i) xs [] h = absurd (omega arith)
take-drop-put_all (suc i) xs (b ∷ p) h = take-drop-put_all i xs p (omega arith)

pub slice-put :
    (i j : ℕ) (xs p : Bytes) → i + length xs ≡ j → j ≤ length p → slice i j (put i xs p) ≡ xs
slice-put i j xs p h k =
    ap (λ n. take n (drop i (put i xs p))) (omega arith) ∙ take-drop-put_all i xs p (omega arith)

-- Octets.
abbrev pub IsOctets : Bytes → Type 0
IsOctets = All (λ b. b < 256)

pub put-IsOctets : (i : ℕ) (xs p : Bytes) → IsOctets xs → IsOctets p → IsOctets (put i xs p)
put-IsOctets zero xs [] h k = tt
put-IsOctets zero [] (b ∷ p) h k = k
put-IsOctets zero (x ∷ xs) (b ∷ p) h k = (h.0, put-IsOctets zero xs p h.1 k.1)
put-IsOctets (suc i) xs [] h k = tt
put-IsOctets (suc i) xs (b ∷ p) h k = (k.0, put-IsOctets i xs p h k.1)

pub drop-IsOctets : (n : ℕ) (p : Bytes) → IsOctets p → IsOctets (drop n p)
drop-IsOctets zero p h = h
drop-IsOctets (suc n) [] h = tt
drop-IsOctets (suc n) (b ∷ p) h = drop-IsOctets n p h.1

pub take-IsOctets : (n : ℕ) (p : Bytes) → IsOctets p → IsOctets (take n p)
take-IsOctets zero p h = tt
take-IsOctets (suc n) [] h = tt
take-IsOctets (suc n) (b ∷ p) h = (h.0, take-IsOctets n p h.1)

pub byte_lt : (p : Bytes) (i : ℕ) → IsOctets p → get_or p i 0 < 256
byte_lt [] i h = omega arith
byte_lt (b ∷ p) zero h = h.0
byte_lt (b ∷ p) (suc i) h = byte_lt p i h.1

pub to_be2-IsOctets : (n : ℕ) → IsOctets (to_be2 n)
to_be2-IsOctets n = (omega arith, (omega arith, tt))

pub to_be4-IsOctets : (n : ℕ) → IsOctets (to_be4 n)
to_be4-IsOctets n = (omega arith, (omega arith, (omega arith, (omega arith, tt))))
