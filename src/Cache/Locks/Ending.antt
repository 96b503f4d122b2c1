-- ===== src/Cache/Locks/Ending.antt =====
-- The number of steps of the threads of core/srvbackend_message.go.
use go_imapgrab.Base.{ℕ, ◌+◌, List, [], ◌∷◌, nat_eq}
use go_imapgrab.Cache.Locks.{Phase, waiting, locked, read, clearing, finished, Thread}

abbrev weight : Phase → ℕ
weight waiting = 5
weight locked = 4
weight (read n) = 3
weight (clearing n) = 2
weight finished = 0

abbrev weights : List Thread → ℕ
weights [] = 0
weights (t ∷ ts) = weight t.phase + weights ts
