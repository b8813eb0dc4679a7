-- ===== src/Wavm.antt =====
-- What the code takes from WAVM, whose sources are not in the repository: `WAVM::HashMap`
-- (WAVM/Inline/HashMap.h) with its documented behaviour, and `WAVM::Hash<Uptr>`. Pointers and
-- machine words are numbers. A hash map is seen through the sequence that its iterators run
-- through, whose order is the library's own.
pub mod Assoc
use mathlib.Core.List.{Perm}
use tpfaas.Base.{
  ℕ, ◌+◌, ◌≡◌, refl, ap, ◌∙◌, ◌≢◌, Bool, true, false, List, [], ◌∷◌, Option, none, some, arith,
  length, sum_by, sum_by-perm, is_some, if◌then◌else◌, Outcome, ok, fault, assert_failed,
}

pub record HashMap (K : Type 0) : Type 1 where
  pub Map : Type 0
  pub empty : Map
  -- what `begin()` up to `end()` runs through
  pub entries : Map → List (K × ℕ)
  pub get : Map → K → Option ℕ
  pub add : Map → K → ℕ → Map
  pub remove : Map → K → Map
  pub entries_empty : entries empty ≡ []
  pub get_empty : (k : K) → get empty k ≡ none
  -- `add` of a key that the map contains does nothing.
  pub add_present : (m : Map) (k : K) (v : ℕ) {w : ℕ} → get m k ≡ some w → add m k v ≡ m
  pub get_add : (m : Map) (k : K) (v : ℕ) → get m k ≡ none → get (add m k v) k ≡ some v
  pub get_add_ne : (m : Map) (k j : K) (v : ℕ) → k ≢ j → get (add m k v) j ≡ get m j
  pub entries_add :
      (m : Map) (k : K) (v : ℕ) → get m k ≡ none → Perm (entries (add m k v)) ((k, v) ∷ entries m)
  pub get_remove : (m : Map) (k : K) → get (remove m k) k ≡ none
  pub get_remove_ne : (m : Map) (k j : K) → k ≢ j → get (remove m k) j ≡ get m j
  pub entries_remove :
      (m : Map) (k : K) {v : ℕ}
      → get m k ≡ some v
      → Perm (entries m) ((k, v) ∷ entries (remove m k))
  -- `remove` of a key that the map does not contain does nothing.
  pub entries_remove_absent : (m : Map) (k : K) → get m k ≡ none → entries (remove m k) ≡ entries m
  -- The key that an iterator stands at is found, with its value.
  pub get_begin :
      (m : Map) (k : K) (v : ℕ) (rest : List (K × ℕ)) → entries m ≡ (k, v) ∷ rest → get m k ≡ some v

-- `Hash<Uptr>()(key)` and `Hash<Uptr>()(key, seed)`
pub record Hashing : Type 0 where
  pub hash : ℕ → ℕ
  pub hash_seeded : ℕ → ℕ → ℕ

module _ {K : Type 0} (hm : HashMap K) where
  open hm use {Map, entries, get, add, remove, entries_add, entries_remove}

  abbrev pub map_size : Map → ℕ
  map_size m = length (entries m)

  -- `addOrFail` and `removeOrFail` assert that the key is absent, or present.
  abbrev pub add_or_fail : Map → K → ℕ → Outcome Map
  add_or_fail m k v = elim (get m k) [ none ↦ ok (add m k v) | some _ ↦ fault assert_failed ]

  abbrev pub remove_or_fail : Map → K → Outcome Map
  remove_or_fail m k = elim (get m k) [ none ↦ fault assert_failed | some _ ↦ ok (remove m k) ]

  -- Any weight of the entries grows and falls with the entry that comes and goes.
  pub sum_by-add :
      (w : K × ℕ → ℕ) (m : Map) (k : K) (v : ℕ)
      → get m k ≡ none
      → sum_by w (entries (add m k v)) ≡ w (k, v) + sum_by w (entries m)
  sum_by-add w m k v e = sum_by-perm w (entries_add m k v e)

  pub sum_by-remove :
      (w : K × ℕ → ℕ) (m : Map) (k : K) (v : ℕ)
      → get m k ≡ some v
      → sum_by w (entries m) ≡ w (k, v) + sum_by w (entries (remove m k))
  sum_by-remove w m k v e = sum_by-perm w (entries_remove m k e)
