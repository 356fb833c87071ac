-- ===== src/Tests/Links.antt =====
-- src/search.c: 3 is inserted between 1 and 2.
use libdeepc.Base.{zero, suc, ◌≡◌, refl, inr, none, some, arith, ok}
use libdeepc.Search.Queue.{Heap, link, insque}
use libdeepc.Search.Queue.Insert.{Inserted, insque-Inserted}

abbrev links : Heap
links zero = none
links (suc zero) = some (link 2 0)
links (suc (suc zero)) = some (link 0 1)
links (suc (suc (suc zero))) = some (link 9 9)
links (suc (suc (suc (suc a)))) = none

insque-Inserted_example : (k : Heap) × (insque links 3 1 ≡ ok k) × Inserted links 3 1 2 0 k
insque-Inserted_example =
    insque-Inserted links 3 1 2 0 9 9 refl refl (ground arith) (ground arith) (ground arith)
      (inr (0, refl, ground arith, ground arith))
