-- ===== src/Rfit/Task/Taking.antt =====
-- What a thread takes in one go from its local map and from the global queue of its function.
use tpfaas.Base.{
  ℕ, ◌+◌, ◌≤◌, ◌≡◌, refl, ◌∙◌, ◌⊎◌, ◌≢◌, inl, inr, [], arith, sum_by, count, is_at, ◌==◌,
  if◌then◌else◌,
}
use tpfaas.Wavm.{HashMap, sum_by-remove}
use tpfaas.Rfit.Function.{F, null}
use tpfaas.Rfit.Task.{T, take_i_from_i_local_map}
use tpfaas.Rfit.Task.Contents.{bad_key, weigh, IsKeyed, take-cases}

-- The weight of an instance that may be the null pointer.
abbrev pub weigh_at : (ℕ → ℕ) → ℕ → ℕ
weigh_at w i = if i == null then 0 else w i

module _ (hm : HashMap ℕ) (h : ℕ → ℕ) where
  open hm use {Map, entries, get, add, remove}

  -- The instances of a thread and its function: each under its hash, none null, none twice.
  pub record IsPlaced (t : T hm) (f : F) : Type 0 where
    pub keyed : IsKeyed hm h t.local_i_map
    pub no_null : count null f.global_i_queue.mq + weigh hm (is_at null) t.local_i_map ≡ 0
    pub once : (x : ℕ) → count x f.global_i_queue.mq + weigh hm (is_at x) t.local_i_map ≤ 1

  -- An instance `i`, or null, has been taken, and nothing else has changed but the places.
  pub record Takes (t : T hm) (f : F) (i : ℕ) (t1 : T hm) (f1 : F) : Type 0 where
    pub moved :
        (w : ℕ → ℕ)
        → weigh_at w i + sum_by w f1.global_i_queue.mq + weigh hm w t1.local_i_map
          ≡ sum_by w f.global_i_queue.mq + weigh hm w t.local_i_map
    pub keyed : IsKeyed hm h t1.local_i_map
    pub cap : f1.rest_cap ≡ f.rest_cap
    pub limit : f1.concurrency_limit ≡ f.concurrency_limit
    pub work_for : t1.work_for ≡ t.work_for

  -- A try at the local map finds it empty, or takes an instance.
  pub take-Takes :
      (t : T hm) (f : F)
      → IsPlaced t f
      → let (i, c, t1) = take_i_from_i_local_map hm t in
        ((entries t.local_i_map ≡ []) × (take_i_from_i_local_map hm t ≡ (null, 0, t)))
        ⊎ ((i ≢ null) × Takes t f i t1 f)
  take-Takes t f p = elim (take-cases hm t (entries t.local_i_map) refl) [
    | inl e ↦ inl e
    | inr (k, v, e, taken) ↦
        let falls = λ (u : ℕ × ℕ → ℕ). sum_by-remove hm u t.local_i_map k v e in
        let here = falls (λ (e : ℕ × ℕ). is_at null e.1) in
        rw taken (
          inr (
            ground (arith, p.no_null),
            record {
              moved = λ w. ground (arith, p.no_null, falls (λ (e : ℕ × ℕ). w e.1));
              keyed = omega (arith, falls (bad_key h), p.keyed);
              cap = refl;
              limit = refl;
              work_for = refl;
            },
          ))
  ]

  pub Takes-IsPlaced :
      (t : T hm) (f : F) (i : ℕ) (t1 : T hm) (f1 : F)
      → IsPlaced t f
      → Takes t f i t1 f1
      → IsPlaced t1 f1
  Takes-IsPlaced t f i t1 f1 p s = record {
    keyed = s.keyed;
    no_null = omega (arith, s.moved (is_at null), p.no_null);
    once = λ x. omega (arith, s.moved (is_at x), p.once x);
  }

  -- A step that takes none before, or behind, one that takes `i`.
  pub null-Takes :
      (t : T hm) (f : F) (i : ℕ) (t1 : T hm) (f1 : F) (t2 : T hm) (f2 : F)
      → Takes t f null t1 f1
      → Takes t1 f1 i t2 f2
      → Takes t f i t2 f2
  null-Takes t f i t1 f1 t2 f2 a b = record {
    moved = λ w. omega (arith, a.moved w, b.moved w);
    keyed = b.keyed;
    cap = b.cap ∙ a.cap;
    limit = b.limit ∙ a.limit;
    work_for = b.work_for ∙ a.work_for;
  }

  pub Takes-null :
      (t : T hm) (f : F) (i : ℕ) (t1 : T hm) (f1 : F) (t2 : T hm) (f2 : F)
      → Takes t f i t1 f1
      → Takes t1 f1 null t2 f2
      → Takes t f i t2 f2
  Takes-null t f i t1 f1 t2 f2 a b = record {
    moved = λ w. omega (arith, a.moved w, b.moved w);
    keyed = b.keyed;
    cap = b.cap ∙ a.cap;
    limit = b.limit ∙ a.limit;
    work_for = b.work_for ∙ a.work_for;
  }
