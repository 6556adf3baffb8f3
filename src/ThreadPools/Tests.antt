-- ===== src/ThreadPools/Tests.antt =====
-- Pools of two loops and of eight threads.
use weee_chatroom.Common.{◌≡◌, ◌⊎◌, ◌<◌, true, [], ◌∷◌, some, length, replicate, arith}
use weee_chatroom.ThreadPools.{ThreadPool, work, ends, destroy, out_of_range, joined, terminated}
use weee_chatroom.ThreadPools.Rotation.{pool, next_loops, next_loops-lap}
use weee_chatroom.ThreadPools.Ending.{work_lem, destroy_lem}

next_loops-lap_example :
    next_loops 2 (pool 1 (4 ∷ 5 ∷ []) 0) ≡ some (4 ∷ 5 ∷ [], pool 1 (4 ∷ 5 ∷ []) 0)
next_loops-lap_example = next_loops-lap 1 4 (5 ∷ [])

work_lem_example : work 3 true (7 ∷ 8 ∷ []) ≡ (7 ∷ 8 ∷ [], ends)
work_lem_example = work_lem 3 true (7 ∷ 8 ∷ []) (omega arith)

abbrev eight : ThreadPool
eight = record { tasks = []; threads = replicate 8 0; stopped = true }

destroy_lem_example :
    ((length eight.threads < 16) × (destroy eight ≡ out_of_range))
    ⊎ ((length eight.threads ≡ 16) × (destroy eight ≡ joined))
    ⊎ ((16 < length eight.threads) × (destroy eight ≡ terminated))
destroy_lem_example = destroy_lem eight
