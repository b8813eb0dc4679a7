-- ===== src/Tests/PartExamples.antt =====
-- The theorems on queues and functions at concrete inputs.
use tpfaas.Base.{ℕ, [], ◌∷◌}
use tpfaas.Utils.Queue.{Queue}
use tpfaas.Rfit.Function.{F}
use tpfaas.Tests.Runs.{f0}

-- A queue that holds 1 and 2.
abbrev two_items : Queue ℕ
two_items = record { mq = 1 ∷ 2 ∷ [] }

-- The function with three instances in its queue.
abbrev waiting : F
waiting = record f0 { global_i_queue = record { mq = 5 ∷ 6 ∷ 7 ∷ [] } }
