-- ===== src/Memory/Tests.antt =====
-- The theorems on src/userspace/memory at concrete fences, semaphores and buffers.
use mvgal.Base.{◌-◌, ◌^◌, none, ◌+◌, ◌≤◌, ◌≡◌, refl, true, false, some, List, [], ◌∷◌, arith}
use mvgal.Base.Wait.{Wakeup, woke, etimedout}
use mvgal.Nt.Codes.{Host}
use mvgal.Status.{success, device_lost}
use mvgal.Memory.Fences as Fences
use mvgal.Memory.Fences.{Fence, signal_with_status}
use mvgal.Memory.Fences.Wait.{Answered, wait-Answered}
use mvgal.Memory.Aliases.{Buffer, Memory, create_alias, create_from, create_in}
use mvgal.Memory.Aliases.Creating.{Created, create_alias-Created}
use mvgal.Memory.Semaphores as Semaphores
use mvgal.Memory.Semaphores.{Semaphore, create, signal}
use mvgal.Memory.Semaphores.Wait.{TookValue, wait-TookValue}
use mvgal.Memory.Semaphores.Units.{World, Reach, start, next, signals, waits, taken_units}

abbrev fence : Fence
fence = record { signaled = false; refcount = 1; status = success; freed = false }

abbrev Referenced : Fence → Type 0
Referenced f = f.refcount ≡ 1

-- A wakeup without a change, then one by a signal with an error.
abbrev fence_schedule : List (Wakeup Fence)
fence_schedule =
    record { ret = woke; others = λ f. f }
    ∷ record { ret = woke; others = λ f. record f { signaled = true; status = device_lost } }
    ∷ []

wait-Answered_example : Answered Referenced 10 (Fences.wait fence_schedule (some fence) 10)
wait-Answered_example =
    wait-Answered Referenced (some fence) 10 fence_schedule (λ f r. r, (λ f r. r, tt)) (λ f e. cc)

abbrev semaphore : Semaphore
semaphore = record { count = 2; refcount = 1; freed = false }

-- Another thread adds units until there are five, then the time ends.
abbrev semaphore_schedule : List (Wakeup Semaphore)
semaphore_schedule =
    record { ret = woke; others = λ s. record s { count = 5 } }
    ∷ record { ret = etimedout; others = λ s. s }
    ∷ []

abbrev Few : Semaphore → Type 0
Few s = s.count ≤ 5

wait-TookValue_example :
    TookValue Few 3 10 (Semaphores.wait semaphore_schedule (some semaphore) 3 10)
wait-TookValue_example =
    wait-TookValue Few (λ s f. omega (arith, f)) (some semaphore) 3 10 semaphore_schedule
      (λ s f. omega arith, (λ s f. f, tt)) (λ s e. ground (arith, e))

abbrev host : Host
host = record { calloc = true; mutex_init = true; cond_init = true; timerfd = true }

abbrev after_two : World
after_two = record {
  semaphore = record { count = 4; refcount = 1; freed = false };
  given = 5;
  taken = 3;
}

after_two-Reach : Reach 2 after_two
unfolding create signal Semaphores.wait Semaphores.wait_on
after_two-Reach =
    next
      (next (start host semaphore refl)
        (signals 5 5 (record semaphore { count = 7 }) (omega arith) refl))
      (waits 3 0 (some success) (record semaphore { count = 4 }) refl)

taken_units_example : (4 + 3 ≡ 2 + 5) × (3 ≤ 2 + 5)
taken_units_example = taken_units 2 (omega arith) after_two-Reach

abbrev parent : Buffer
parent = record {
  refcount = 1;
  state = 1;
  backend = 0;
  size = 32;
  alignment = 8;
  flags = 0;
  memory_type = 0;
  sharing_mode = 0;
  access = 3;
  gpu_mask = 1;
  priority = 50;
  host_ptr = some 4096;
  host_offset = 0;
  dmabuf_fd = none;
  dmabuf_offset = 0;
  dmabuf_owner = false;
  gpu_bindings =
      record {
        gpu_index = 0;
        gpu_address = 4096;
        mapping = none;
        writable = true;
        readable = true;
        dmabuf_fd = none;
      }
      ∷ [];
  original_ptr = some 4096;
  should_free = true;
  alias_parent = none;
  aliases = [];
  alias_offset = 0;
  alias_size = 0;
  alias_flags = 0;
  is_alias = false;
  alias_detached = false;
}

abbrev memory : Memory
memory = record { heap = λ y. parent; buffers = 0 ∷ [] }

-- A read-only alias of the second half, at address 5.
create_alias-Created_example :
    Created memory 0 16 0 1 (some 5) (create_alias memory (some 0) 16 0 1 true (some 5))
create_alias-Created_example =
    create_alias-Created memory 0 16 0 1 (some 5) (λ b e. ground arith) (omega arith)

-- A region whose end wraps around is accepted.
wrapping_alias : (create_alias memory (some 0) 16 (2 ^ 64 - 8) 1 true (some 5)).0 ≡ success
unfolding create_alias create_from create_in
wrapping_alias = refl
