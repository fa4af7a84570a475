-- ===== src/Client/HostQueue/Tests.antt =====
-- The queue at concrete hosts.
use indexd.Base.{◌≡◌, [], ◌∷◌, contains, ltb, leb, ◌&&◌, if◌then◌else◌, arith}
use indexd.Client.HostQueue.{new_host_queue, yield_all}
use indexd.Client.HostQueue.Order.{handed, handed-new_host_queue}

handed-new_host_queue_example :
    handed 7 2 (yield_all (λ h t. ltb t 3) 9 (new_host_queue (7 ∷ 4 ∷ 7 ∷ [])))
    ≡ (if ltb 0 2 && leb 2 3 && contains (7 ∷ 4 ∷ 7 ∷ []) 7 then 1 else 0)
handed-new_host_queue_example =
    handed-new_host_queue 3 9 (7 ∷ 4 ∷ 7 ∷ []) 7 2 (omega arith) (omega arith)
