-- ===== src/Faabric/Delta/Xor.antt =====
-- Exclusive or on bytes, as `std::bit_xor<uint8_t>` in src/util/delta.cpp of faasm/faabric.
use Prim.Native.Nat.{bit_xor}
use tpfaas.Base.{
  ℕ, false, zero, suc, ◌+◌, ◌*◌, ◌/◌, ◌%◌, ◌<◌, ◌≡◌, refl, sym, subst, Bool, true, List, [], ◌∷◌,
  length, arith, ◌==◌, ==_iff, if◌then◌else◌, Bool-cases, inl, inr,
}
use tpfaas.Faabric.Delta.{xor_bytes}

-- Every element is a byte.
abbrev pub AreBytes : List ℕ → Type 0
AreBytes [] = Unit {0}
AreBytes (x ∷ xs) = (x < 256) × AreBytes xs

-- Mixing the first of two bytes in twice gives the second one, for the pairs of bytes `256 x + y`
-- below a number.
xor_restores : ℕ → Bool
xor_restores zero = true
xor_restores (suc pair) =
    if bit_xor (bit_xor (pair / 256) (pair % 256)) (pair / 256) == pair % 256
    then xor_restores pair
    else false

xor_restores-pair :
    (count pair : ℕ)
    → xor_restores count ≡ true
    → pair < count
    → bit_xor (bit_xor (pair / 256) (pair % 256)) (pair / 256) ≡ pair % 256
unfolding xor_restores
xor_restores-pair zero pair all below = absurd (omega arith)
xor_restores-pair (suc count) pair all below =
    elim (Bool-cases (bit_xor (bit_xor (count / 256) (count % 256)) (count / 256) == count % 256)) [
      | inl holds ↦ elim (Bool-cases (pair == count)) [
        | inl last ↦
            subst (λ (v : ℕ). bit_xor (bit_xor (v / 256) (v % 256)) (v / 256) ≡ v % 256)
              (sym ((==_iff pair count).0 last)) ((==_iff _ (count % 256)).0 holds)
        | inr earlier ↦
            xor_restores-pair count pair (rw holds at all) (ground (arith, earlier, below))
      ]
      | inr fails ↦ absurd (ground (arith, fails, all))
    ]

every_pair : xor_restores 65536 ≡ true
unfolding xor_restores
every_pair = refl

xor_twice : (x y : ℕ) → x < 256 → y < 256 → bit_xor (bit_xor x y) x ≡ y
xor_twice x y hx hy =
    let upper : (x * 256 + y) / 256 ≡ x = omega arith in
    let lower : (x * 256 + y) % 256 ≡ y = omega arith in
    rw (upper, lower) at (xor_restores-pair 65536 (x * 256 + y) every_pair (omega arith))

pub xor_bytes_twice :
    (xs ys : List ℕ)
    → AreBytes xs
    → AreBytes ys
    → length xs ≡ length ys
    → xor_bytes (xor_bytes xs ys) xs ≡ ys
unfolding xor_bytes
xor_bytes_twice [] [] a b e = refl
xor_bytes_twice [] (y ∷ ys) a b e = absurd (omega arith)
xor_bytes_twice (x ∷ xs) [] a b e = absurd (omega arith)
xor_bytes_twice (x ∷ xs) (y ∷ ys) a b e =
    rw (xor_twice x y a.0 b.0, xor_bytes_twice xs ys a.1 b.1 (omega arith))
