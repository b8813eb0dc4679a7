-- ===== src/Wavm/Assoc.antt =====
-- Association lists with distinct keys meet the interface of `HashMap`: its laws can hold.
use mathlib.Core.List.{Perm}
use mathlib.Core.List.Perm
use mathlib.Core.Logic.{ite, if_pos, if_neg}
use tpfaas.Base.{ℕ, ◌≡◌, refl, ◌≢◌, List, [], ◌∷◌, Option, none, some, arith}
use tpfaas.Wavm.{HashMap}

module _ {K : Type 0} (dec : Discrete K) where
  unfoldable pub find : List (K × ℕ) → K → Option ℕ
  find [] k = none
  find ((j, v) ∷ l) k = ite (dec j k) (some v) (find l k)

  unfoldable pub erase : List (K × ℕ) → K → List (K × ℕ)
  erase [] k = []
  erase ((j, v) ∷ l) k = ite (dec j k) l ((j, v) ∷ erase l k)

  -- No key stands twice.
  abbrev pub Distinct : List (K × ℕ) → Type 0
  Distinct [] = Unit {0}
  Distinct ((k, v) ∷ l) = (find l k ≡ none) × Distinct l

  pub find-erase_ne : (l : List (K × ℕ)) (k j : K) → k ≢ j → find (erase l k) j ≡ find l j
  unfolding find erase
  find-erase_ne [] k j h = refl
  find-erase_ne ((i, v) ∷ l) k j h = ground (arith, find-erase_ne l k j h)

  pub find-erase : (l : List (K × ℕ)) (k : K) → Distinct l → find (erase l k) k ≡ none
  unfolding find erase
  find-erase [] k d = refl
  find-erase ((i, v) ∷ l) k d = ground (arith, find-erase l k d.1)

  pub find-erase_none : (l : List (K × ℕ)) (k j : K) → find l j ≡ none → find (erase l k) j ≡ none
  unfolding find erase
  find-erase_none [] k j h = refl
  find-erase_none ((i, v) ∷ l) k j h = ground (arith, find-erase_none l k j)

  pub erase-Distinct : (l : List (K × ℕ)) (k : K) → Distinct l → Distinct (erase l k)
  unfolding erase
  erase-Distinct [] k d = tt
  erase-Distinct ((i, v) ∷ l) k d = ground (arith, erase-Distinct l k d.1, find-erase_none l k i)

  pub erase-perm :
      (l : List (K × ℕ)) (k : K) (v : ℕ) → find l k ≡ some v → Perm l ((k, v) ∷ erase l k)
  unfolding find erase
  erase-perm [] k v h = cc
  erase-perm ((i, w) ∷ l) k v h = elim (dec i k) [
    | yes hit ↦ rw (if_pos _ hit) (Perm.cons' (ground arith) Perm.rfl)
    | no miss ↦ rw (if_neg _ miss) (
        Perm.trans (Perm.cons (i, w) (erase-perm l k v (ground arith))) (Perm.swap (k, v) (i, w) _))
  ]

  pub erase_absent : (l : List (K × ℕ)) (k : K) → find l k ≡ none → erase l k ≡ l
  unfolding find erase
  erase_absent [] k h = refl
  erase_absent ((i, v) ∷ l) k h = ground (arith, erase_absent l k)

  abbrev pub AssocMap : Type 0
  AssocMap = (l : List (K × ℕ)) × Distinct l

  unfoldable pub add_at : (m : AssocMap) (k : K) (v : ℕ) (o : Option ℕ) → find m.0 k ≡ o → AssocMap
  add_at m k v none e = ((k, v) ∷ m.0, (e, m.1))
  add_at m k v (some w) e = m

  unfoldable pub add : AssocMap → K → ℕ → AssocMap
  unfolding add_at
  add m k v = add_at m k v (find m.0 k) refl

  pub add_at_present :
      (m : AssocMap) (k : K) (v : ℕ) (o : Option ℕ) (e : find m.0 k ≡ o) {w : ℕ}
      → o ≡ some w
      → add_at m k v o e ≡ m
  unfolding add_at
  add_at_present m k v none e h = cc
  add_at_present m k v (some w) e h = refl

  pub add_at_absent :
      (m : AssocMap) (k : K) (v : ℕ) (o : Option ℕ) (e : find m.0 k ≡ o)
      → o ≡ none
      → (add_at m k v o e).0 ≡ (k, v) ∷ m.0
  unfolding add_at
  add_at_absent m k v none e h = refl
  add_at_absent m k v (some w) e h = cc

  pub find-add_at_ne :
      (m : AssocMap) (k j : K) (v : ℕ) (o : Option ℕ) (e : find m.0 k ≡ o)
      → k ≢ j
      → find (add_at m k v o e).0 j ≡ find m.0 j
  unfolding add_at find
  find-add_at_ne m k j v none e h = ground arith
  find-add_at_ne m k j v (some w) e h = refl

  pub find-add : (m : AssocMap) (k : K) (v : ℕ) → find m.0 k ≡ none → find (add m k v).0 k ≡ some v
  unfolding add find
  find-add m k v e = rw (add_at_absent m k v (find m.0 k) refl e) (ground arith)

  pub add-perm :
      (m : AssocMap) (k : K) (v : ℕ) → find m.0 k ≡ none → Perm (add m k v).0 ((k, v) ∷ m.0)
  unfolding add
  add-perm m k v e = rw (add_at_absent m k v (find m.0 k) refl e) Perm.rfl

  pub find_first :
      (l : List (K × ℕ)) (k : K) (v : ℕ) (rest : List (K × ℕ))
      → l ≡ (k, v) ∷ rest
      → find l k ≡ some v
  unfolding find
  find_first l k v rest e = rw e (ground arith)

  unfoldable pub assoc_map : HashMap K
  unfolding add add_at find
  assoc_map = record {
    Map = AssocMap;
    empty = ([], tt);
    entries = λ m. m.0;
    get = λ m k. find m.0 k;
    add = add;
    remove = λ m k. (erase m.0 k, erase-Distinct m.0 k m.1);
    entries_empty = refl;
    get_empty = λ k. refl;
    add_present = λ m k v {w} e. add_at_present m k v (find m.0 k) refl e;
    get_add = λ m k v e. find-add m k v e;
    get_add_ne = λ m k j v h. find-add_at_ne m k j v (find m.0 k) refl h;
    entries_add = λ m k v e. add-perm m k v e;
    get_remove = λ m k. find-erase m.0 k m.1;
    get_remove_ne = λ m k j h. find-erase_ne m.0 k j h;
    entries_remove = λ m k {v} e. erase-perm m.0 k v e;
    entries_remove_absent = λ m k e. erase_absent m.0 k e;
    get_begin = λ m k v rest e. find_first m.0 k v rest e;
  }
