-- ===== src/Workqueue/Channel/Flow/Stored.antt =====
-- A last value beside the stored ones.
use px4_rs.Prelude.{ℕ, ◌+◌, Option, List, [], ◌∷◌, ◌++◌}
use px4_rs.Workqueue.Channel.Fifo.{Stored}

pub Stored-init :
    {T : Type 0} (capacity : ℕ) (buf : List (Option T)) (h : ℕ) (q : List T) (v : T)
    → Stored capacity buf h (q ++ (v ∷ []))
    → Stored capacity buf h q
Stored-init capacity buf h [] v s = tt
Stored-init capacity buf h (x ∷ q) v (a, s) = (a, Stored-init capacity buf (h + 1) q v s)
