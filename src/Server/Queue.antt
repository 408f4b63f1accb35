-- ===== src/Server/Queue.antt =====
-- webcc/queue.h: `Queue`. Each method holds the mutex from end to end, so it is one step.
use devops_workshop.Prelude.{Option, none, some, List, [], ◌∷◌, ◌++◌}

-- `Push`
unfoldable pub push {ℓ} : {T : Type ℓ} → T → List T → List T
push message q = q ++ message ∷ []

-- `PopOrWait`: `none` while it waits
unfoldable pub pop_or_wait {ℓ} : {T : Type ℓ} → List T → Option (T × List T)
pop_or_wait [] = none
pop_or_wait (message ∷ q) = some (message, q)

-- `Pop`: the default value on an empty queue
unfoldable pub pop {ℓ} : {T : Type ℓ} → T → List T → T × List T
pop default [] = (default, [])
pop default (message ∷ q) = (message, q)

-- `Clear`
unfoldable pub clear {ℓ} : {T : Type ℓ} → List T → List T
clear q = []
