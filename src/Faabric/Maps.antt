-- ===== src/Faabric/Maps.antt =====
-- faasm/faabric: `std::string` as a key, and the `std::unordered_map`s and `std::unordered_set`s over it as
-- lists, in the order in which they are gone through.
use Prim.Native.String.{◌++◌ as append}
use text.Mathlib.Text.{◌==◌}
use text.Mathlib.TextEquality.{eq_iff}
use text.Mathlib.TextLemmas.{append-eq-nil_iff}
use text.Mathlib.TextPositions.{eq_refl}
use tpfaas.Base.{
  ℕ, suc, zero, ltb, ◌/◌, ◌%◌, ◌+◌, ◌≡◌, sym, subst, ap, Bool, true, false, ◌||◌, String, List, [],
  ◌∷◌, ◌++◌, arith, if◌then◌else◌, Bool-cases, inl, inr, sum_by,
}

-- `+` of strings
abbrev pub joined : String → String → String
joined s t = append s t

nth_of : List String → ℕ → String
nth_of [] n = ""
nth_of (s ∷ l) zero = s
nth_of (s ∷ l) (suc n) = nth_of l n

digit : ℕ → String
unfolding nth_of
digit = nth_of ("0" ∷ "1" ∷ "2" ∷ "3" ∷ "4" ∷ "5" ∷ "6" ∷ "7" ∷ "8" ∷ "9" ∷ [])

-- The decimal digits, with as many rounds as the number.
decimal : ℕ → ℕ → String
unfolding digit
decimal zero n = digit n
decimal (suc fuel) n =
    let upper = decimal fuel (n / 10) in if ltb n 10 then digit n else joined upper (digit (n % 10))

-- `std::to_string`
unfoldable pub to_string : ℕ → String
unfolding decimal
to_string n = decimal n n

-- `==` of strings
unfoldable pub same : String → String → Bool
same s t = s == t

pub same_refl : (s : String) → same s s ≡ true
unfolding same
same_refl s = eq_refl s

pub same-path : (s t : String) → same s t ≡ true → s ≡ t
unfolding same
same-path s t h = (eq_iff s t).0 h

-- A text that starts with something is not empty.
pub joined_nonempty : (s t : String) → same s "" ≡ false → same (joined s t) "" ≡ false
joined_nonempty s t h = elim (Bool-cases (same (joined s t) "")) [
  | inl empty ↦
      let none_first = append-eq-nil_iff.0 (same-path (joined s t) "" empty) in
      absurd (cc (h, sym (ap (λ (l : String). same l "") (none_first.0)), same_refl ""))
  | inr nonempty ↦ nonempty
]

-- `operator[]`: a key that is absent stands for the default value.
unfoldable pub at {ℓ} : {V : Type ℓ} → V → List (String × V) → String → V
at d [] k = d
at d ((j, v) ∷ m) k = if same j k then v else at d m k

unfoldable pub put {ℓ} : {V : Type ℓ} → List (String × V) → String → V → List (String × V)
put [] k v = (k, v) ∷ []
put ((j, w) ∷ m) k v = let rest = put m k v in if same j k then (j, v) ∷ m else (j, w) ∷ rest

-- The sets: `count`, `insert` and `erase`.
unfoldable pub has : List String → String → Bool
has [] k = false
has (j ∷ l) k = same j k || has l k

unfoldable pub insert : List String → String → List String
unfolding has
insert l k = if has l k then l else l ++ k ∷ []

unfoldable pub erase : List String → String → List String
erase [] k = []
erase (j ∷ l) k = let rest = erase l k in if same j k then rest else j ∷ rest

pub at-put {ℓ} :
    {V : Type ℓ} (d : V) (m : List (String × V)) (k : String) (v : V) → at d (put m k v) k ≡ v
unfolding at put
at-put d [] k v = ground (arith, same_refl k)
at-put d ((j, w) ∷ m) k v = ground (arith, at-put d m k v)

pub at-put_other {ℓ} :
    {V : Type ℓ} (d : V) (m : List (String × V)) (k j : String) (v : V)
    → same k j ≡ false
    → at d (put m k v) j ≡ at d m j
unfolding at put
at-put_other d [] k j v h = ground arith
at-put_other d ((i, w) ∷ m) k j v h = elim (Bool-cases (same i k)) [
  | inl hit ↦ ground (arith, subst (λ (l : String). same l j ≡ false) (sym (same-path i k hit)) h)
  | inr miss ↦ ground (arith, at-put_other d m k j v h)
]

abbrev pub total : List (String × ℕ) → ℕ
total = sum_by (λ e. e.1)

pub total-put :
    (m : List (String × ℕ)) (k : String) (v : ℕ) → total (put m k v) + at 0 m k ≡ total m + v
unfolding at put
total-put [] k v = omega arith
total-put ((j, w) ∷ m) k v = ground (arith, total-put m k v)
