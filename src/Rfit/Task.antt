-- ===== src/Rfit/Task.antt =====
-- include/RFIT/T/task.h and the methods of src/RFIT/T/task.cpp that work on one thread `T`, its
-- local map of instances and the function that it works for. A method takes the objects that it
-- changes and returns them; `hash_of` stands for `item->getHash()` on the instances.
pub mod Contents
pub mod Taking
pub mod Fetch
pub mod Leave
pub mod Stealing
use tpfaas.Base.{
  ℕ, ◌/◌, Bool, true, false, not, ◌&&◌, ◌||◌, List, [], ◌∷◌, ◌++◌, length, ltb, leb, ◌==◌,
  if◌then◌else◌, Outcome, ok, ◌>>=◌, ◌>>◌, assert,
}
use tpfaas.Wavm.{HashMap, map_size}
use tpfaas.Rfit.Function.{
  F, null, is_concurrency, get_i_count, try_get_multi_i, scale_cap, to_iptr, negate,
}

-- `T_status`
pub data TStatus : Type 0 where
  idle busy none : TStatus

pub record T (hm : HashMap ℕ) : Type 0 where
  pub hash : ℕ
  pub sem_word : ℕ
  pub work_for : ℕ
  pub deal_with : ℕ
  pub direct_run : Bool
  pub local_i_map : hm.Map
  pub status : TStatus

module _ (hm : HashMap ℕ) where
  open hm use {Map, entries, add, remove}

  -- `getICount`
  abbrev pub local_count : T hm → ℕ
  local_count t = map_size hm t.local_i_map

  -- `takeIFromILocalMap_safe`: the instance, the count that is left, the thread
  unfoldable pub take_i_from_i_local_map : T hm → ℕ × ℕ × T hm
  take_i_from_i_local_map t = elim (entries t.local_i_map) [
    | [] ↦ (null, 0, t)
    | (key, value) ∷ _ ↦ (
      value,
      map_size hm (remove t.local_i_map key),
      record t { local_i_map = remove t.local_i_map key },
    )
  ]

  -- the loop of `addMultiI`
  unfoldable pub add_all : (ℕ → ℕ) → Map → List ℕ → Map
  add_all hash_of m [] = m
  add_all hash_of m (item ∷ rest) = add_all hash_of (add m (hash_of item) item) rest

  -- `addMultiI`
  unfoldable pub add_multi_i : (ℕ → ℕ) → T hm → List ℕ → T hm
  add_multi_i hash_of t i_vector = record t { local_i_map = add_all hash_of t.local_i_map i_vector }

  abbrev pub is_empty : List ℕ → Bool
  is_empty [] = true
  is_empty (_ ∷ _) = false

  -- `tryGetIFromF2T_safe`; `f` is what `workFor` points to.
  unfoldable pub try_get_i_from_f2t : (ℕ → ℕ) → T hm → F → ℕ → ℕ × T hm × F
  unfolding add_multi_i
  try_get_i_from_f2t hash_of t f count =
      if ltb (get_i_count f) 1 || ltb count 1
      then (0, t, f)
      else let (i_vector, f1) = try_get_multi_i f [] count in
        if is_empty i_vector
        then (0, t, f1)
        else (length i_vector, add_multi_i hash_of t i_vector, f1)

  -- `attachToF_safe`, with the function `f` at the address `fp`
  unfoldable pub attach_to_f : T hm → ℕ → F → Outcome (T hm × F)
  attach_to_f t fp f =
      if is_concurrency f
      then (do
        (_, f1) ← scale_cap f (to_iptr f.concurrency_limit)
        ok (record t { work_for = fp }, f1))
      else ok (t, f)

  -- `leaveFromF_safe`
  unfoldable pub leave_from_f : T hm → F → Outcome F
  leave_from_f t f = do
    assert (not (t.work_for == null))
    if is_concurrency f
        then (do (_, f1) ← scale_cap f (to_iptr (negate f.concurrency_limit)); ok f1)
        else ok f

  -- In `get_I_from_I_local_task_queue_and_supply_I_from_F_if_need`: the second try on the local map
  -- after something was pulled while nothing had been found.
  unfoldable pub take_again : ℕ → ℕ → T hm → Outcome (ℕ × T hm)
  take_again pulled i t =
      if not (pulled == 0) && (i == null)
      then (let (i1, _, t1) = take_i_from_i_local_map t in
          do assert (not (i1 == null)); ok (i1, t1))
      else ok (i, t)

  -- The method up to its call of `leaveFromF_safe`: the instance or `null`.
  unfoldable pub fetch_i : (ℕ → ℕ) → T hm → F → Outcome (ℕ × T hm × F)
  fetch_i hash_of t f =
      let (i, count, t1) = take_i_from_i_local_map t in
      let half_concurrency_limit = f.concurrency_limit / 2 in
      if leb count half_concurrency_limit
      then (let (pulled, t2, f2) = try_get_i_from_f2t hash_of t1 f half_concurrency_limit in
          do (i3, t3) ← take_again pulled i t2; ok (i3, t3, f2))
      else (do assert (not (i == null)); ok (i, t1, f))

  -- `get_I_from_I_local_task_queue_and_supply_I_from_F_if_need`
  unfoldable pub get_i_and_supply : (ℕ → ℕ) → T hm → F → Outcome (ℕ × T hm × F)
  get_i_and_supply hash_of t f = if not (is_concurrency f) then ok (null, t, f) else (do
    (i, t1, f1) ← fetch_i hash_of t f
    f2 ← (if i == null then leave_from_f t1 f1 else ok f1)
    ok (i, t1, f2))

  -- The loop of `tryGetIFromOtherT2T_safe` over the other map: the vector and this thread's map.
  unfoldable pub steal_loop : ℕ → List ℕ → Map → List (ℕ × ℕ) → List ℕ × Map
  steal_loop pull_count i_vector own [] = (i_vector, own)
  steal_loop pull_count i_vector own ((key, value) ∷ rest) =
      let v = i_vector ++ value ∷ [] in
      let more = steal_loop pull_count v (remove own key) rest in
      if length v == pull_count then (v, remove own key) else more

  -- `tryGetIFromOtherT2T_safe`, with the caller and the other thread after it; `other_f` is what the other
  -- thread's `workFor` points to. The loop removes each key from the caller's own map.
  unfoldable pub try_get_i_from_other_t2t : (ℕ → ℕ) → T hm → T hm → F → ℕ × T hm × T hm
  unfolding steal_loop add_multi_i
  try_get_i_from_other_t2t hash_of t other_t other_f =
      if leb (local_count other_t) (other_f.concurrency_limit / 2)
      then (0, t, other_t)
      else let pull_count = local_count other_t / 2 in
        let (i_vector, own) =
          steal_loop pull_count [] t.local_i_map (entries other_t.local_i_map) in
        (pull_count, add_multi_i hash_of (record t { local_i_map = own }) i_vector, other_t)
