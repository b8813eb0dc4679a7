-- ===== src/Faabric/Bytes.antt =====
-- faasm/faabric: src/util/bytes.cpp and include/faabric/util/bytes.h. A byte is a number below 256.
use tpfaas.Base.{
  ℕ, zero, suc, ◌+◌, ◌*◌, ◌/◌, ◌%◌, ◌^◌, ◌≤◌, ◌<◌, ◌≡◌, refl, subst, true, ◌&&◌, List, [], ◌∷◌,
  ◌++◌, length, take, drop, arith, ltb, leb, ◌==◌, if◌then◌else◌, Outcome, ok, ◌>>◌, throw_unless,
  length-append, take-append, drop-append,
}

-- The bytes of a machine word, the lowest first.
unfoldable pub bytes_of : ℕ → ℕ → List ℕ
bytes_of zero v = []
bytes_of (suc n) v = (v % 256) ∷ bytes_of n (v / 256)

-- The word that the bytes stand for.
unfoldable pub word_of : List ℕ → ℕ
word_of [] = 0
word_of (b ∷ bs) = b + 256 * word_of bs

-- `appendBytesOf` for a type of `size` bytes
unfoldable pub append_bytes_of : ℕ → List ℕ → ℕ → List ℕ
unfolding bytes_of
append_bytes_of size container value = container ++ bytes_of size value

-- `readBytesOf` on what the container holds from the offset on; it returns the value and what
-- stands behind it.
unfoldable pub read_bytes_of : ℕ → List ℕ → Outcome (ℕ × List ℕ)
unfolding word_of
read_bytes_of size rest = do
  throw_unless (ltb 0 (length rest) && leb size (length rest))
  ok (word_of (take size rest), drop size rest)

-- The loop of `trimTrailingZeros` runs over the vector from its end: here on the reversed vector.
unfoldable pub trim_zeros : List ℕ → List ℕ
trim_zeros [] = []
trim_zeros (b ∷ bs) = let more = trim_zeros bs in if b == 0 then more else b ∷ bs

pub length-bytes_of : (n v : ℕ) → length (bytes_of n v) ≡ n
unfolding bytes_of
length-bytes_of zero v = refl
length-bytes_of (suc n) v = omega (arith, length-bytes_of n (v / 256))

word_of-bytes_of : (n v : ℕ) → v < 256 ^ n → word_of (bytes_of n v) ≡ v
unfolding bytes_of word_of
word_of-bytes_of zero v h = omega arith
word_of-bytes_of (suc n) v h = omega (arith, word_of-bytes_of n (v / 256) (grind arith))

pub read_bytes_of-append :
    (n v : ℕ) (rest : List ℕ)
    → 1 ≤ n
    → v < 256 ^ n
    → read_bytes_of n (bytes_of n v ++ rest) ≡ ok (v, rest)
unfolding read_bytes_of
read_bytes_of-append n v rest some_size fits =
    let b = bytes_of n v in
    let e = length-bytes_of n v in
    let taken = subst (λ (k : ℕ). take k (b ++ rest) ≡ b) e (take-append b rest) in
    let left = subst (λ (k : ℕ). drop k (b ++ rest) ≡ rest) e (drop-append b rest) in
    let long : (ltb 0 (length (b ++ rest)) && leb n (length (b ++ rest))) ≡ true =
      ground (arith, length-append b rest, e) in
    rw (long, taken, left, word_of-bytes_of n v fits)
