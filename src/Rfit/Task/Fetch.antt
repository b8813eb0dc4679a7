-- ===== src/Rfit/Task/Fetch.antt =====
-- `get_I_from_I_local_task_queue_and_supply_I_from_F_if_need` up to its call of `leaveFromF_safe`.
use tpfaas.Base.{
  ℕ, ◌+◌, ◌-◌, ◌/◌, ◌≤◌, ◌≡◌, refl, ap, subst, ◌≢◌, inl, inr, true, false, [], arith, length, leb,
  ◌==◌, Bool-cases, min, Outcome, ok, sum_by_one, length-take, length-drop, drop,
}
use tpfaas.Wavm.{HashMap}
use tpfaas.Utils.Queue
use tpfaas.Rfit.Function.{F, null, get_i_count}
use tpfaas.Rfit.Task.{T, take_i_from_i_local_map, add_multi_i, fetch_i, take_again}
use tpfaas.Rfit.Task.Contents.{try_get_lem, pulled, rest_of, pull-weigh}
use tpfaas.Rfit.Task.Taking.{IsPlaced, Takes, take-Takes, Takes-IsPlaced, null-Takes, Takes-null}

leb_zero : (n : ℕ) → leb 0 n ≡ true
leb_zero n = ground arith

module _ (hm : HashMap ℕ) (h : ℕ → ℕ) where
  open hm use {entries}

  module _ (injective : (i j : ℕ) → h i ≡ h j → i ≡ j) where
    -- A pull moves instances from the queue into the local map, and takes none.
    pull-Takes :
        (t : T hm) (f : F) (n : ℕ)
        → IsPlaced hm h t f
        → Takes hm h t f null (add_multi_i hm h t (pulled hm f n)) (rest_of hm f n)
    unfolding add_multi_i
    pull-Takes t f n p = record {
      moved = λ w. omega (arith, (pull-weigh hm h injective w t.local_i_map f n p.keyed p.once).0);
      keyed = (pull-weigh hm h injective (λ _. 0) t.local_i_map f n p.keyed p.once).1;
      cap = refl;
      limit = refl;
      work_for = refl;
    }

    -- What the fetch comes to: it takes an instance, or it leaves both places empty.
    pub record Fetches (t : T hm) (f : F) (r : Outcome (ℕ × T hm × F)) : Type 0 where
      pub i : ℕ
      pub t1 : T hm
      pub f1 : F
      pub result : r ≡ ok (i, t1, f1)
      pub takes : Takes hm h t f i t1 f1
      pub nothing :
          i ≡ null
          → 2 ≤ f.concurrency_limit
          → length f1.global_i_queue.mq + length (entries t1.local_i_map) ≡ 0

    take_again_held : (n i : ℕ) (t : T hm) → i ≢ null → take_again hm n i t ≡ ok (i, t)
    unfolding take_again
    take_again_held n i t some_i = ground arith

    take_again_nothing :
        (n : ℕ) (t : T hm) → (n == 0) ≡ true → take_again hm n null t ≡ ok (null, t)
    unfolding take_again
    take_again_nothing n t e = ground arith

    take_again_found :
        (n : ℕ) (t : T hm)
        → (n == 0) ≡ false
        → (take_i_from_i_local_map hm t).0 ≢ null
        → take_again hm n null t
          ≡ ok ((take_i_from_i_local_map hm t).0, (take_i_from_i_local_map hm t).2)
    unfolding take_again
    take_again_found n t e some_i = ground arith

    -- With an instance in hand, a pull or none, and the instance is returned.
    fetch_held :
        (t : T hm) (f : F) (i c : ℕ) (t1 : T hm)
        → IsPlaced hm h t f
        → take_i_from_i_local_map hm t ≡ (i, c, t1)
        → i ≢ null
        → Takes hm h t f i t1 f
        → Fetches t f (fetch_i hm h t f)
    unfolding fetch_i
    fetch_held t f i c t1 p e some_i s = elim (Bool-cases (leb c (f.concurrency_limit / 2))) [
      | inl few ↦ record {
        i = i;
        t1 = add_multi_i hm h t1 (pulled hm f (f.concurrency_limit / 2));
        f1 = rest_of hm f (f.concurrency_limit / 2);
        result =
            rw (e, fetch_i)
              (rw (few, try_get_lem hm h t1 f (f.concurrency_limit / 2))
                (rw (take_again_held _ i _ some_i)));
        takes =
            Takes-null hm h t f i t1 f _ _ s
              (pull-Takes t1 f (f.concurrency_limit / 2) (Takes-IsPlaced hm h t f i t1 f p s));
        nothing = λ z. absurd (some_i z);
      }
      | inr many ↦ record {
        i = i;
        t1 = t1;
        f1 = f;
        result = rw (e, fetch_i) (rw many (ground arith));
        takes = s;
        nothing = λ z. absurd (some_i z);
      }
    ]

    -- The lengths after a pull into an empty map.
    pull-length :
        (t : T hm) (f : F) (n : ℕ)
        → IsPlaced hm h t f
        → entries t.local_i_map ≡ []
        → let f2 = rest_of hm f n in
          let t2 = add_multi_i hm h t (pulled hm f n) in
          (length (pulled hm f n) ≡ min n (get_i_count f))
          × (length f2.global_i_queue.mq ≡ get_i_count f - min n (get_i_count f))
          × (length f2.global_i_queue.mq + length (entries t2.local_i_map) ≡ get_i_count f)
    unfolding get_i_count Queue.size
    pull-length t f n p none_left =
        let t2 = add_multi_i hm h t (pulled hm f n) in
        let q = f.global_i_queue.mq in
        let k = min n (length q) in
        (
          omega (arith, length-take k q),
          length-drop k q,
          omega (
            arith,
            (pull-Takes t f n p).moved (λ _. 1),
            sum_by_one q,
            sum_by_one (drop k q),
            ap length none_left,
            sum_by_one (entries t.local_i_map),
            sum_by_one (entries t2.local_i_map),
          ),
        )

    -- With nothing in hand, a pull, and a second try if it brought anything.
    fetch_empty :
        (t : T hm) (f : F)
        → IsPlaced hm h t f
        → entries t.local_i_map ≡ []
        → take_i_from_i_local_map hm t ≡ (null, 0, t)
        → Fetches t f (fetch_i hm h t f)
    unfolding fetch_i
    fetch_empty t f p none_left e =
        let half = f.concurrency_limit / 2 in
        let t2 = add_multi_i hm h t (pulled hm f half) in
        let f2 = rest_of hm f half in
        let pull = pull-Takes t f half p in
        let lengths = pull-length t f half p none_left in
        elim (Bool-cases (length (pulled hm f half) == 0)) [
          | inl nothing ↦ record {
            i = null;
            t1 = t2;
            f1 = f2;
            result =
                rw (e, fetch_i)
                  (rw (leb_zero half, try_get_lem hm h t f half)
                    (rw (take_again_nothing _ t2 nothing)));
            takes = pull;
            nothing = λ z two. ground arith;
          }
          | inr more ↦ elim (take-Takes hm h t2 f2 (Takes-IsPlaced hm h t f null t2 f2 p pull)) [
            | inl (empty, _) ↦ absurd (ground (arith, ap length empty))
            | inr (some_i, s) ↦ record {
              i = (take_i_from_i_local_map hm t2).0;
              t1 = (take_i_from_i_local_map hm t2).2;
              f1 = f2;
              result =
                  rw (e, fetch_i)
                    (rw (leb_zero half, try_get_lem hm h t f half)
                      (rw (take_again_found _ t2 more some_i)));
              takes = null-Takes hm h t f _ t2 f2 _ _ pull s;
              nothing = λ z. absurd (some_i z);
            }
          ]
        ]

    -- The fetch returns on every state in which each instance stands once under its own hash: no
    -- assertion fails.
    pub fetch_i-Fetches : (t : T hm) (f : F) → IsPlaced hm h t f → Fetches t f (fetch_i hm h t f)
    fetch_i-Fetches t f p = elim (take-Takes hm h t f p) [
      | inl (none_left, e) ↦ fetch_empty t f p none_left e
      | inr (some_i, s) ↦ fetch_held t f _ _ _ p refl some_i s
    ]

    same_result : {a b : ℕ × T hm × F} (r : Outcome (ℕ × T hm × F)) → r ≡ ok a → r ≡ ok b → a ≡ b
    same_result r p q = cc

    -- Whatever the fetch returns is what it takes.
    pub fetch_i-Takes :
        (t : T hm) (f : F) (i : ℕ) (t1 : T hm) (f1 : F)
        → IsPlaced hm h t f
        → fetch_i hm h t f ≡ ok (i, t1, f1)
        → Takes hm h t f i t1 f1
    fetch_i-Takes t f i t1 f1 p e =
        let r = fetch_i-Fetches t f p in
        subst (λ (x : ℕ × T hm × F). Takes hm h t f x.0 x.1 x.2)
          (same_result (fetch_i hm h t f) r.result e) r.takes
