-- ===== src/Faabric/Delta/Encoded.antt =====
-- The regions that the encoder writes for two whole blocks, and the memory that these leave.
use mathlib.Core.List.{append_assoc, append-nil}
use tpfaas.Base.{
  ℕ, zero, suc, ◌+◌, ◌-◌, ◌^◌, ◌≤◌, ◌<◌, ◌≡◌, refl, ap, sym, subst, ◌∙◌, List, [], ◌∷◌, ◌++◌,
  length, length-append, length-take, length-drop, length-replicate, take-append, take-append-drop,
  take_all, drop_all, take, drop, slice, replicate, arith, leb, ◌==◌, ==_iff, if◌then◌else◌,
  Bool-cases, inl, inr, Outcome, ok, ◌>>=◌,
}
use tpfaas.Faabric.Bytes.{bytes_of, length-bytes_of}
use tpfaas.Faabric.Delta.{
  DeltaSettings, xor_bytes, encode_changed_region, encode_new_region, deltacmd_delta_overwrite,
  deltacmd_delta_xor,
}
use tpfaas.Faabric.Delta.Commands.{region}
use tpfaas.Faabric.Delta.Regions.{
  Region, put, mix, stream, run, Fits, put_region-put, put_region-mix, stream-append, run-append,
  Fits-append, length-xor_bytes,
}
use tpfaas.Faabric.Delta.Xor.{AreBytes, xor_bytes_twice}

-- What `std::vector::resize` and the growth of a zeroed memory make of a block.
abbrev pub resize : ℕ → List ℕ → List ℕ
resize n xs = take n xs ++ replicate (n - length xs) 0

-- What a part of the encoder adds to the output, for a memory of `n` bytes.
pub record Adds (r : Outcome (List ℕ)) (outb : List ℕ) (n : ℕ) (memory target : List ℕ) (room : ℕ)
    : Type 0 where
  pub regions : List Region
  pub result : r ≡ ok (outb ++ stream regions)
  pub fits : Fits n regions
  pub ran : run regions memory ≡ target
  pub sized : length (stream regions) ≤ room

length-region :
    (cmd start : ℕ) (bytes : List ℕ)
    → length bytes < 2 ^ 32
    → length (region cmd start bytes ++ []) ≤ 2 ^ 32 + 8
length-region cmd start bytes short = omega (
  arith,
  length-append (region cmd start bytes) [],
  length-append (bytes_of 4 start) (bytes_of 4 (length bytes) ++ bytes),
  length-append (bytes_of 4 (length bytes)) bytes,
  length-bytes_of 4 start,
  length-bytes_of 4 (length bytes),
)

-- The target of a command at the start.
changed_Adds :
    (cfg : DeltaSettings) (old new outb memory : List ℕ) (n : ℕ)
    → n ≤ length old
    → n ≤ length new
    → n ≤ length memory
    → n < 2 ^ 32
    → AreBytes (take n old)
    → AreBytes (take n new)
    → take n memory ≡ take n old
    → Adds
        (encode_changed_region cfg old new outb 0 n)
        outb
        (length memory)
        memory
        (take n new ++ drop n memory)
        (2 ^ 32 + 8)
unfolding encode_changed_region stream
changed_Adds cfg old new outb memory n a b c small bytes_old bytes_new same =
    let whole : length (take n new) ≡ n = omega (arith, length-take n new) in
    let whole_old : length (take n old) ≡ n = omega (arith, length-take n old) in
    let mixed = xor_bytes (take n old) (take n new) in
    let len : length mixed ≡ n = length-xor_bytes (take n old) (take n new) ∙ whole_old in
    let back =
      ap (λ (k : ℕ). xor_bytes mixed (take k memory)) len
      ∙ ap (xor_bytes mixed) same
      ∙ xor_bytes_twice (take n old) (take n new) bytes_old bytes_new
          (omega (arith, whole, whole_old)) in
    let shift : 0 + length (take n new) ≡ n = omega (arith, whole) in
    elim (Bool-cases (n == 0)) [
      | inl none_left ↦
          let z : n ≡ 0 = (==_iff n 0).0 none_left in
          record {
            regions = [];
            result = rw (none_left, append-nil outb);
            fits = tt;
            ran = rw z refl;
            sized = omega arith;
          }
      | inr some_left ↦ elim (Bool-cases cfg.xor_with_old) [
        | inl mixing ↦ record {
          regions = mix 0 mixed ∷ [];
          result = ground (
            arith,
            some_left,
            mixing,
            (put_region-mix outb 0 mixed (omega arith) (omega (arith, len))),
          );
          fits = (omega (arith, len), tt);
          ran = rw back (ap (λ (k : ℕ). take n new ++ drop k memory) shift);
          sized = length-region deltacmd_delta_xor 0 mixed (omega (arith, len));
        }
        | inr writing ↦ record {
          regions = put 0 (take n new) ∷ [];
          result = ground (
            arith,
            some_left,
            writing,
            (put_region-put outb 0 (take n new) (omega arith) (omega (arith, whole))),
          );
          fits = (omega (arith, whole), tt);
          ran = ap (λ (k : ℕ). take n new ++ drop k memory) shift;
          sized = length-region deltacmd_delta_overwrite 0 (take n new) (omega (arith, whole));
        }
      ]
    ]

-- The target of a command for what lies behind the old data.
new_Adds :
    (new outb memory : List ℕ) (start : ℕ)
    → start ≤ length new
    → length memory ≡ length new
    → length new < 2 ^ 32
    → Adds
        (encode_new_region new outb start (length new - start))
        outb
        (length memory)
        memory
        (take start memory ++ drop start new)
        (2 ^ 32 + 8)
unfolding encode_new_region stream
new_Adds new outb memory start inside same small =
    let n = length new - start in
    let behind : length (drop start new) ≡ n = length-drop start new in
    let whole : slice new start n ≡ drop start new =
      take_all n (drop start new) (omega (arith, behind)) in
    elim (Bool-cases (n == 0)) [
      | inl none_left ↦ record {
        regions = [];
        result = rw (none_left, append-nil outb);
        fits = tt;
        ran = sym (
            ap (λ (l : List ℕ). take start memory ++ l) (drop_all start new (ground arith))
            ∙ append-nil (take start memory)
            ∙ take_all start memory (ground arith));
        sized = omega arith;
      }
      | inr some_left ↦ record {
        regions = put start (drop start new) ∷ [];
        result = ground (
          arith,
          whole,
          put_region-put outb start (drop start new) (omega arith) (omega (arith, behind)),
        );
        fits = (omega (arith, behind), tt);
        ran =
            ap (λ (l : List ℕ). take start memory ++ (drop start new ++ l))
              (drop_all (start + length (drop start new)) memory (omega (arith, behind)))
            ∙ ap (λ (l : List ℕ). take start memory ++ l) (append-nil (drop start new));
        sized =
            length-region deltacmd_delta_overwrite start (drop start new) (omega (arith, behind));
      }
    ]

AreBytes-take : (n : ℕ) (xs : List ℕ) → AreBytes xs → AreBytes (take n xs)
AreBytes-take zero xs b = tt
AreBytes-take (suc n) [] b = tt
AreBytes-take (suc n) (x ∷ xs) b = (b.0, AreBytes-take n xs b.1)

pub length-resize : (n : ℕ) (xs : List ℕ) → length (resize n xs) ≡ n
length-resize n xs =
    length-append (take n xs) (replicate (n - length xs) 0)
    ∙ omega (arith, length-take n xs, length-replicate {A = ℕ} (n - length xs) 0)

take-resize : (n k : ℕ) (xs : List ℕ) → k ≤ n → k ≤ length xs → take k (resize n xs) ≡ take k xs
take-resize n zero xs a b = refl
take-resize zero (suc k) xs a b = absurd (omega arith)
take-resize (suc n) (suc k) [] a b = absurd (omega arith)
take-resize (suc n) (suc k) (x ∷ xs) a b = ap (◌∷◌ x) (
    ap (λ (m : ℕ). take k (take n xs ++ replicate {A = ℕ} m 0)) (omega arith)
    ∙ take-resize n k xs (omega arith) (omega arith))

length-two :
    (rs qs : List Region)
    → length (stream rs) ≤ 2 ^ 32 + 8
    → length (stream qs) ≤ 2 ^ 32 + 8
    → length (stream (rs ++ qs)) ≤ 2 ^ 33 + 16
length-two rs qs a b =
    let e : length (stream (rs ++ qs)) ≡ length (stream rs) + length (stream qs) =
      ap length (stream-append rs qs) ∙ length-append (stream rs) (stream qs) in
    omega (arith, e)

wider : {n : ℕ} → n ≤ 2 ^ 32 + 8 → n ≤ 2 ^ 33 + 16
wider h = omega arith

-- The commands for whole blocks, on the old block at its new length.
pub block_Adds :
    (cfg : DeltaSettings) (old new outb : List ℕ)
    → length old < 2 ^ 32
    → length new < 2 ^ 32
    → AreBytes old
    → AreBytes new
    → Adds
        (if leb (length old) (length new)
          then (do
            out1 ← encode_changed_region cfg old new outb 0 (length old)
            encode_new_region new out1 (length old) (length new - length old))
          else encode_changed_region cfg old new outb 0 (length new))
        outb
        (length new)
        (resize (length new) old)
        new
        (2 ^ 33 + 16)
block_Adds cfg old new outb small_old small_new bytes_old bytes_new =
    let memory = resize (length new) old in
    elim (Bool-cases (leb (length old) (length new))) [
      | inl grows ↦
          let n = length old in
          let le : n ≤ length new = ground arith in
          let a =
            changed_Adds cfg old new outb memory n (omega arith) le
              (omega (arith, length-resize (length new) old)) small_old
              (AreBytes-take n old bytes_old) (AreBytes-take n new bytes_new)
              (take-resize (length new) n old le (omega arith)) in
          let memory1 = take n new ++ drop n memory in
          let whole : length (take n new) ≡ n = omega (arith, length-take n new) in
          let long : length memory1 ≡ length new =
            length-append (take n new) (drop n memory)
            ∙ omega (arith, whole, length-drop n memory, length-resize (length new) old) in
          let first =
            subst (λ (k : ℕ). take k memory1 ≡ take n new) whole
              (take-append (take n new) (drop n memory)) in
          let b = new_Adds new (outb ++ stream a.regions) memory1 n le long small_new in
          record {
            regions = a.regions ++ b.regions;
            result =
                rw (grows, a.result, b.result)
                  (ap ok (
                    append_assoc outb (stream a.regions) (stream b.regions)
                    ∙ ap (λ (l : List ℕ). outb ++ l) (sym (stream-append a.regions b.regions))));
            fits =
                Fits-append (length new) a.regions b.regions
                  (subst (λ (k : ℕ). Fits k a.regions) (length-resize (length new) old) a.fits)
                  (subst (λ (k : ℕ). Fits k b.regions) long b.fits);
            ran =
                run-append a.regions b.regions memory
                ∙ ap (run b.regions) a.ran
                ∙ b.ran
                ∙ ap (λ (l : List ℕ). l ++ drop n new) first
                ∙ take-append-drop n new;
            sized = length-two a.regions b.regions a.sized b.sized;
          }
      | inr shrinks ↦
          let n = length new in
          let le : n ≤ length old = ground arith in
          let a =
            changed_Adds cfg old new outb memory n le (omega arith)
              (omega (arith, length-resize (length new) old)) small_new
              (AreBytes-take n old bytes_old) (AreBytes-take n new bytes_new)
              (take-resize (length new) n old (omega arith) le) in
          record {
            regions = a.regions;
            result = rw shrinks a.result;
            fits = subst (λ (k : ℕ). Fits k a.regions) (length-resize (length new) old) a.fits;
            ran =
                a.ran
                ∙ ap (λ (l : List ℕ). take n new ++ l)
                    (drop_all n memory (omega (arith, length-resize (length new) old)))
                ∙ append-nil (take n new)
                ∙ take_all n new (omega arith);
            sized = wider a.sized;
          }
    ]
