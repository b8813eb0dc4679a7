-- ===== src/Rfit/Task/Stealing.antt =====
-- What `tryGetIFromOtherT2T_safe` does to the two local maps.
use mathlib.Core.List.{append-nil, append_assoc}
use tpfaas.Base.{
  ℕ, zero, suc, ◌+◌, ◌-◌, ◌/◌, ◌≤◌, ◌<◌, ◌≡◌, refl, sym, ap, ◌∙◌, inl, inr, true, false, List, [],
  ◌∷◌, ◌++◌, none, arith, length, length-append, take, drop, take-append-drop, sum_by,
  sum_by-append, sum_by_one, length-take, is_at, ◌==◌, Option-cases,
}
use tpfaas.Wavm.{HashMap, sum_by-remove}
use tpfaas.Rfit.Function.{F, is_concurrency}
use tpfaas.Rfit.Task.{T, local_count, add_all, add_multi_i, steal_loop, try_get_i_from_other_t2t}
use tpfaas.Rfit.Task.Contents.{weigh, bad_key, add_all-weigh}

module _ (hm : HashMap ℕ) where
  open hm use {Map, entries, get, add, remove}

  abbrev pub values : List (ℕ × ℕ) → List ℕ
  values [] = []
  values ((_, value) ∷ rest) = value ∷ values rest

  get_of_nothing : (m : Map) (k : ℕ) → entries m ≡ [] → get m k ≡ none
  get_of_nothing m k e = elim (Option-cases (get m k)) [
    | inl out ↦ out
    | inr (v, there) ↦
        absurd (omega (arith, sum_by-remove hm (λ _. 1) m k v there, ap (sum_by (λ _. 1)) e))
  ]

  remove_of_nothing : (m : Map) (k : ℕ) → entries m ≡ [] → entries (remove m k) ≡ []
  remove_of_nothing m k e = hm.entries_remove_absent m k (get_of_nothing m k e) ∙ e

  -- The loop collects `n` values more, or all; an empty map of the caller stays empty.
  steal_loop-take :
      (most n : ℕ) (v : List ℕ) (own : Map) (l : List (ℕ × ℕ))
      → length v + suc n ≡ most
      → entries own ≡ []
      → ((steal_loop hm most v own l).0 ≡ v ++ values (take (suc n) l))
        × (entries (steal_loop hm most v own l).1 ≡ [])
  unfolding steal_loop
  steal_loop-take most n v own [] e nothing = (sym (append-nil v), nothing)
  steal_loop-take most zero v own ((k, i) ∷ l) e nothing =
      let full : (length (v ++ i ∷ []) == most) ≡ true =
        ground (arith, e, length-append v (i ∷ [])) in
      rw full (refl, remove_of_nothing own k nothing)
  steal_loop-take most (suc n) v own ((k, i) ∷ l) e nothing =
      let short : (length (v ++ i ∷ []) == most) ≡ false =
        ground (arith, e, length-append v (i ∷ [])) in
      let (all, left) =
        steal_loop-take most n (v ++ i ∷ []) (remove own k) l
          (omega (arith, e, length-append v (i ∷ []))) (remove_of_nothing own k nothing) in
      rw short (all ∙ append_assoc v (i ∷ []) (values (take (suc n) l)), left)

  sum_by-values :
      (w : ℕ → ℕ) (l : List (ℕ × ℕ)) → sum_by w (values l) ≡ sum_by (λ (e : ℕ × ℕ). w e.1) l
  sum_by-values w [] = refl
  sum_by-values w ((k, i) ∷ l) = omega (arith, sum_by-values w l)

  sum_by-take : (w : ℕ × ℕ → ℕ) (n : ℕ) (l : List (ℕ × ℕ)) → sum_by w (take n l) ≤ sum_by w l
  sum_by-take w n l =
      omega (arith, sum_by-append w (take n l) (drop n l), ap (sum_by w) (take-append-drop n l))

  module _ (h : ℕ → ℕ) (injective : (i j : ℕ) → h i ≡ h j → i ≡ j) where
    -- With distinct hashes, a thread with nothing in its local map steals from one that works for
    -- a concurrent function, holds more than half of its limit, and no instance twice: it gets
    -- half of the other's instances, at least one. But the other thread has as many instances after
    -- the call as before, and each one that this thread has got is in the other's map too.
    pub stolen_twice :
        (t other_t : T hm) (other_f : F)
        → is_concurrency other_f ≡ true
        → other_f.concurrency_limit / 2 < local_count hm other_t
        → entries t.local_i_map ≡ []
        → ((x : ℕ) → weigh hm (is_at x) other_t.local_i_map ≤ 1)
        → (t1 other1 : T hm) × (try_get_i_from_other_t2t hm h t other_t other_f
            ≡ (local_count hm other_t / 2, t1, other1))
          × (local_count hm t1 ≡ local_count hm other_t / 2)
          × (1 ≤ local_count hm t1)
          × (local_count hm other1 ≡ local_count hm other_t)
          × ((x : ℕ) → weigh hm (is_at x) t1.local_i_map ≤ weigh hm (is_at x) other1.local_i_map)
    unfolding try_get_i_from_other_t2t is_concurrency add_multi_i
    stolen_twice t other_t other_f c over nothing once =
        let l = entries other_t.local_i_map in
        let n = local_count hm other_t / 2 in
        let stolen = values (take n l) in
        let some_half : suc (n - 1) ≡ n = ground (arith, c, over) in
        let (all, left) =
          steal_loop-take n (n - 1) [] t.local_i_map l (omega (arith, some_half)) nothing in
        let own = (steal_loop hm n [] t.local_i_map l).1 in
        let same = all ∙ ap (λ (k : ℕ). values (take k l)) some_half in
        let part = λ (w : ℕ → ℕ). sum_by-values w (take n l) in
        let less = λ (w : ℕ → ℕ). sum_by-take (λ (e : ℕ × ℕ). w e.1) n l in
        let none_own = λ (w : ℕ → ℕ). ap (sum_by (λ (e : ℕ × ℕ). w e.1)) left in
        let now = λ (w : ℕ → ℕ).
          (add_all-weigh hm h injective w own stolen (ap (sum_by (bad_key h)) left)
            (λ x. omega (arith, once x, part (is_at x), less (is_at x), none_own (is_at x)))).0 in
        let m = add_all hm h own stolen in
        let size : length (entries m) ≡ n = omega (
          arith,
          now (λ _. 1),
          part (λ _. 1),
          none_own (λ _. 1),
          sum_by_one (entries m),
          sum_by_one (take n l),
          length-take n l,
        ) in
        (
          record t { local_i_map = m },
          other_t,
          rw (sym same) (ground (arith, over)),
          size,
          omega (arith, size, some_half),
          refl,
          λ x. omega (arith, now (is_at x), part (is_at x), less (is_at x), none_own (is_at x)),
        )
