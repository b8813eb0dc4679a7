-- ===== src/Rfit/Function.antt =====
-- include/RFIT/F/function.h and src/RFIT/F/function.cpp: one function `F`, its queue of waiting
-- instances and the count of its free places. Each method that takes `globalIQueue`'s or `restCap`'s
-- lock is one step. A pointer is a number, the null pointer 0.
pub mod Pull
pub mod Capacity
use tpfaas.Base.{
  ℕ, zero, suc, ◌+◌, ◌-◌, ◌*◌, ◌/◌, ◌%◌, ◌^◌, ◌<◌, ◌≡◌, refl, Bool, true, false, not, ◌||◌, String,
  List, [], ◌∷◌, ◌++◌, ltb, ◌==◌, if◌then◌else◌, ℤ, pos, negsuc, ◌+ℤ◌, ◌-ℤ◌, ltb_ℤ, Outcome, ok,
  fault, ◌>>=◌, ◌>>◌, assert, no_overflow, overflow,
}
use tpfaas.Utils.Queue
use tpfaas.Utils.Queue.{Queue}

-- `nullptr`
abbrev pub null : ℕ
null = 0

pub record F : Type 0 where
  pub name : String
  pub entry_addr : ℕ
  pub r : ℕ
  pub concurrency_limit : ℕ
  pub global_i_queue : Queue ℕ
  pub rest_cap : ℤ

-- The constructor. It leaves `restCap.count` as memory has it: `junk`.
unfoldable pub new_f : String → ℕ → ℕ → ℕ → ℤ → F
new_f function_name entry_addr r concurrency_limit junk = record {
  name = function_name;
  entry_addr = entry_addr;
  r = r;
  concurrency_limit = concurrency_limit;
  global_i_queue = Queue.new_queue;
  rest_cap = junk;
}

-- `isConcurrency`
unfoldable pub is_concurrency : F → Bool
is_concurrency f = ltb 1 f.concurrency_limit

-- `addI2F`
unfoldable pub add_i2f : F → ℕ → F
add_i2f f i = record f { global_i_queue = Queue.enqueue f.global_i_queue i }

-- `getICount`
unfoldable pub get_i_count : F → ℕ
get_i_count f = Queue.size f.global_i_queue

-- The `for` loop of `tryGetMultiI`, with the rounds that are left.
unfoldable pub pull_loop : ℕ → List ℕ → Queue ℕ → List ℕ × Queue ℕ
pull_loop zero i_vector q = (i_vector, q)
pull_loop (suc n) i_vector q =
    let (i, q1) = Queue.try_dequeue q null in pull_loop n (i_vector ++ i ∷ []) q1

-- `tryGetMultiI`: the vector is returned beside the function.
unfoldable pub try_get_multi_i : F → List ℕ → ℕ → List ℕ × F
unfolding get_i_count pull_loop
try_get_multi_i f i_vector count =
    let i_count = get_i_count f in
    if i_count == 0 || count == 0
    then (i_vector, f)
    else let pull_count = (if ltb count i_count then count else i_count) in
      let (v, q) = pull_loop pull_count i_vector f.global_i_queue in
      (v, record f { global_i_queue = q })

-- `tryScaleDownCap`
unfoldable pub try_scale_down_cap : F → ℤ → Outcome (Bool × F)
unfolding is_concurrency ◌-ℤ◌
try_scale_down_cap f scale_count = do
  assert (not (ltb_ℤ scale_count (pos 0)))
  assert (is_concurrency f)
  if ltb_ℤ f.rest_cap scale_count then ok (false, f) else (do
    assert (not (ltb_ℤ (f.rest_cap -ℤ scale_count) (pos 0)))
    ok (true, record f { rest_cap = f.rest_cap -ℤ scale_count }))

-- Whether an integer is an `Iptr`.
unfoldable pub is_iptr : ℤ → Bool
is_iptr (pos n) = ltb n (2 ^ 63)
is_iptr (negsuc n) = ltb n (2 ^ 63)

-- `scaleCap`, with the count that it returns: the sum is one of `Iptr`s.
unfoldable pub scale_cap : F → ℤ → Outcome (ℤ × F)
unfolding is_concurrency is_iptr ◌+ℤ◌
scale_cap f scale_count = do
  assert (is_concurrency f)
  no_overflow (is_iptr (f.rest_cap +ℤ scale_count))
  assert (not (ltb_ℤ (f.rest_cap +ℤ scale_count) (pos 0)))
  ok (f.rest_cap +ℤ scale_count, record f { rest_cap = f.rest_cap +ℤ scale_count })

-- The conversion of a `Uptr` to `Iptr` where one is passed for the other.
unfoldable pub to_iptr : ℕ → ℤ
to_iptr n = if ltb n (2 ^ 63) then pos n else negsuc (2 ^ 64 - 1 - n)

-- `0 - c` on `Uptr`
abbrev pub negate : ℕ → ℕ
negate c = (2 ^ 64 - c) % 2 ^ 64
