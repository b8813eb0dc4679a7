-- ===== src/Rfit/Task/Contents.antt =====
-- Where the instances go: any weight of the instances that a thread's local map and a global queue
-- hold is kept by `addMultiI`, `takeIFromILocalMap_safe` and `tryGetIFromF2T_safe`.
use tpfaas.Base.{
  ℕ, ◌+◌, ◌≤◌, ◌≡◌, refl, sym, ap, subst, ◌∙◌, ◌⊎◌, inl, inr, true, ◌||◌, List, [], ◌∷◌, none, some,
  arith, length, take, drop, take-append-drop, sum_by, sum_by-append, count, is_at, ltb, ◌==◌,
  if◌then◌else◌, Option-cases, Bool-cases, min,
}
use tpfaas.Wavm.{HashMap, map_size, sum_by-add, sum_by-remove}
use tpfaas.Rfit.Function.{F, null, get_i_count}
use tpfaas.Rfit.Function.Pull.{try_get_multi_i_lem}
use tpfaas.Rfit.Task.{
  T, take_i_from_i_local_map, add_all, add_multi_i, try_get_i_from_f2t, is_empty,
}

abbrev pub bad_key : (ℕ → ℕ) → ℕ × ℕ → ℕ
bad_key h (k, v) = if k == h v then 0 else 1

module _ (hm : HashMap ℕ) where
  open hm use {Map, entries, get, add, remove}

  -- The weight of the instances in a map.
  abbrev pub weigh : (ℕ → ℕ) → Map → ℕ
  weigh w m = sum_by (λ (e : ℕ × ℕ). w e.1) (entries m)

  -- Every instance stands under its own hash.
  abbrev pub IsKeyed : (ℕ → ℕ) → Map → Type 0
  IsKeyed h m = sum_by (bad_key h) (entries m) ≡ 0

  -- A key that is found leads to an instance of that hash, which the map holds.
  pub get-IsKeyed :
      (h : ℕ → ℕ) (m : Map) (k v : ℕ)
      → IsKeyed h m
      → get m k ≡ some v
      → (k ≡ h v) × (1 ≤ weigh (is_at v) m)
  get-IsKeyed h m k v keyed e =
      let bad = sum_by-remove hm (bad_key h) m k v e in
      let held = sum_by-remove hm (λ (e : ℕ × ℕ). is_at v e.1) m k v e in
      (ground arith, ground arith)

  -- One try at the local map: it is empty and stays so, or an instance leaves it.
  pub take-cases :
      (t : T hm) (l : List (ℕ × ℕ))
      → entries t.local_i_map ≡ l
      → ((l ≡ []) × (take_i_from_i_local_map hm t ≡ (null, 0, t)))
        ⊎ ((k : ℕ) × (v : ℕ) × (get t.local_i_map k ≡ some v)
            × (take_i_from_i_local_map hm t ≡ (
              v,
              map_size hm (remove t.local_i_map k),
              record t { local_i_map = remove t.local_i_map k },
            )))
  unfolding take_i_from_i_local_map
  take-cases t [] e = inl (refl, rw (e, take_i_from_i_local_map))
  take-cases t ((k, v) ∷ rest) e =
      inr (k, v, hm.get_begin t.local_i_map k v rest e, rw (e, take_i_from_i_local_map))

  -- A pull that brings nothing is a pull of the empty vector.
  add_nothing :
      (h : ℕ → ℕ) (t : T hm) (f : F) (v : List ℕ)
      → ◌≡◌ {A = ℕ × T hm × F}
          (if is_empty hm v then (0, t, f) else (length v, add_multi_i hm h t v, f))
          (length v, add_multi_i hm h t v, f)
  unfolding add_multi_i add_all
  add_nothing h t f [] = refl
  add_nothing h t f (_ ∷ _) = refl

  none_to_pull : (c n : ℕ) → (ltb c 1 || ltb n 1) ≡ true → min n c ≡ 0
  none_to_pull c n e = ground arith

  -- What `tryGetIFromF2T_safe` pulls, and what it leaves in the queue.
  abbrev pub pulled : F → ℕ → List ℕ
  pulled f n = take (min n (get_i_count f)) f.global_i_queue.mq

  abbrev pub rest_of : F → ℕ → F
  rest_of f n = record f {
    global_i_queue = record { mq = drop (min n (get_i_count f)) f.global_i_queue.mq };
  }

  pub try_get_lem :
      (h : ℕ → ℕ) (t : T hm) (f : F) (n : ℕ)
      → try_get_i_from_f2t hm h t f n
        ≡ (length (pulled f n), add_multi_i hm h t (pulled f n), rest_of f n)
  unfolding try_get_i_from_f2t add_multi_i add_all
  try_get_lem h t f n = elim (Bool-cases (ltb (get_i_count f) 1 || ltb n 1)) [
    | inl e ↦ rw (e, none_to_pull (get_i_count f) n e)
    | inr e ↦ rw (e, try_get_multi_i_lem f [] n) (add_nothing h t (rest_of f n) (pulled f n))
  ]

  module _ (h : ℕ → ℕ) (injective : (i j : ℕ) → h i ≡ h j → i ≡ j) where
    -- An instance that a keyed map does not hold has no entry under its hash.
    absent : (m : Map) (i : ℕ) → IsKeyed h m → weigh (is_at i) m ≡ 0 → get m (h i) ≡ none
    absent m i keyed out = elim (Option-cases (get m (h i))) [
      | inl e ↦ e
      | inr (v, e) ↦
          let (same, held) = get-IsKeyed h m (h i) v keyed e in
          absurd (
            omega (arith, subst (λ (x : ℕ). 1 ≤ weigh (is_at x) m) (sym (injective i v same)) held))
    ]

    -- What `addMultiI` adds is there, if no instance is added twice or already there.
    pub add_all-weigh :
        (w : ℕ → ℕ) (m : Map) (v : List ℕ)
        → IsKeyed h m
        → ((x : ℕ) → count x v + weigh (is_at x) m ≤ 1)
        → (weigh w (add_all hm h m v) ≡ sum_by w v + weigh w m) × IsKeyed h (add_all hm h m v)
    unfolding add_all
    add_all-weigh w m [] keyed once = (omega arith, keyed)
    add_all-weigh w m (i ∷ v) keyed once =
        let out = absent m i keyed (ground (arith, once i)) in
        let grows = λ (u : ℕ × ℕ → ℕ). sum_by-add hm u m (h i) i out in
        let (sum, keyed') =
          add_all-weigh w (add m (h i) i) v (ground (arith, grows (bad_key h)))
            (λ x. omega (arith, once x, grows (λ (e : ℕ × ℕ). is_at x e.1))) in
        (omega (arith, sum, grows (λ (e : ℕ × ℕ). w e.1)), keyed')

    -- What is pulled is in the local map, and what stays is in the queue.
    pub pull-weigh :
        (w : ℕ → ℕ) (m : Map) (f : F) (n : ℕ)
        → IsKeyed h m
        → ((x : ℕ) → count x f.global_i_queue.mq + weigh (is_at x) m ≤ 1)
        → (sum_by w (rest_of f n).global_i_queue.mq + weigh w (add_all hm h m (pulled f n))
            ≡ sum_by w f.global_i_queue.mq + weigh w m)
          × IsKeyed h (add_all hm h m (pulled f n))
    pull-weigh w m f n keyed once =
        let k = min n (get_i_count f) in
        let q = f.global_i_queue.mq in
        let split = λ (u : ℕ → ℕ).
          sym (sum_by-append u (take k q) (drop k q)) ∙ ap (sum_by u) (take-append-drop k q) in
        let (sum, keyed') =
          add_all-weigh w m (pulled f n) keyed (λ x. omega (arith, once x, split (is_at x))) in
        (omega (arith, sum, split w), keyed')
