-- ===== src/Daemon/Tests.antt =====
-- The theorems on src/userspace/daemon/ipc.c at two messages and a small server.
use mvgal.Base.{
  ℕ, ◌≡◌, refl, true, none, inl, List, [], ◌∷◌, ◌++◌, map, arith, Option, some, Bool, false,
}
use mvgal.Status.{Status, success}
use mvgal.Sched.Types.{compute}
use mvgal.Sched.Queue.{empty, enqueue, append_tail, dequeue_priority, find_best, retain}
use mvgal.Sched.Process.{process_internal, process_loop, after_dequeue, process_one, complete}
use mvgal.Sched.State.{Scheduler}
use mvgal.Sched.Calls.{SubmitInfo, new_workload, submit, submit_queued}
use mvgal.Sched.Gpus.{Afr}
use mvgal.Sched.Gpus.Assigning.{afr_strategy}
use mvgal.Daemon.Ipc.RoundTrip.{
  Message, message_bytes, open_pipe, stream, send_all, receive_all, sent_well, got_well,
  receive_all-send_all,
}
use mvgal.Daemon.Server.{Services, serve_one, handle_client}
use mvgal.Daemon.Server.Rounds.{says}
use mvgal.Daemon.Server.Answers.{answers, all_served, handle_client-Answers}
use mvgal.Daemon.Server.Frees.{serve_one_double_free}

-- The bytes of a submission stand for its priority.
abbrev info_of : List ℕ → SubmitInfo
info_of [] = record { kind = compute; priority = 0; deadline = 0; gpu_mask = 0 }
info_of (b ∷ bs) = record { kind = compute; priority = b; deadline = 0; gpu_mask = 0 }

-- A question for the configuration with a payload, and a submission.
abbrev question : Message
question = says 8 (1 ∷ []) 7

abbrev two_messages : List Message
two_messages = question ∷ says 4 (5 ∷ 6 ∷ []) 8 ∷ []

receive_all-send_all_example :
    ((send_all two_messages (open_pipe [])).0 ≡ map sent_well two_messages)
    × (receive_all 16 2 (send_all two_messages (open_pipe [])).1 ≡ map got_well two_messages)
receive_all-send_all_example = receive_all-send_all two_messages 16 (omega arith)

-- A scheduler without a workload, which distributes by alternate frame rendering.
abbrev idle : Scheduler Afr
idle = record {
  heap = λ w. new_workload (info_of []) 0 0;
  ready = empty;
  initialized = true;
  paused = false;
  thread_running = false;
  next_workload_id = 1;
  stats = record { submitted = 0; completed = 0; failed = 0 };
  strategy_state = record {
    current_gpu_index = 0;
    frame_counter = 0;
    gpu_count = 0;
    gpu_indices = λ i. 0;
    initialized = false;
  };
  called = [];
  readings = 0;
}

-- err == MVGAL_SUCCESS && workload != NULL
abbrev outcome : Option (Status × Option ℕ × Scheduler Afr) → Option (Bool × Scheduler Afr)
outcome none = none
outcome (some (success, some w, s)) = some (true, s)
outcome (some (err, w, s)) = some (false, s)

-- A server that submits to this scheduler; 9 rounds are enough for its loop, unless the priority is 0.
abbrev services : Services (Scheduler Afr)
services = record {
  gpus = λ s. [];
  config = λ s. 9 ∷ [];
  submit = λ s payload. outcome (
      submit (λ n. n) (afr_strategy (λ w. none)) 9 s (info_of payload) none
        (some s.next_workload_id));
  info_size = 2;
  malloc = λ n. true;
}

handle_client-Answers_example :
    handle_client services 3 idle (open_pipe (stream two_messages)) (open_pipe [])
    ≡ all_served services [] two_messages (answers services idle two_messages)
handle_client-Answers_example =
    handle_client-Answers services (λ s. omega arith) (λ n. refl) 3 idle two_messages []
      (omega arith) (omega arith)

-- The submission is answered by its result, and with the priority 0 the server never answers again.
abbrev answered_kinds : Option (List Message × Scheduler Afr) → List ℕ
answered_kinds none = []
answered_kinds (some (rs, s)) = map (λ m. m.kind) rs

submission_answered : answered_kinds (answers services idle two_messages) ≡ 8 ∷ 5 ∷ []
unfolding submit submit_queued enqueue process_internal process_loop append_tail after_dequeue
    dequeue_priority find_best retain process_one complete
submission_answered = refl

priority_0_unanswered : answers services idle (says 4 (0 ∷ 0 ∷ []) 8 ∷ []) ≡ none
unfolding submit submit_queued enqueue process_internal process_loop append_tail after_dequeue
    dequeue_priority find_best retain process_one complete
priority_0_unanswered = refl

serve_one_double_free_example :
    (serve_one services idle
      (open_pipe (message_bytes question ++ []))
      (record { bytes = []; limits = none ∷ [] })).frees
    ≡ 2
serve_one_double_free_example =
    serve_one_double_free services idle 8 1 7 [] [] [] [] (λ n. refl) (omega arith) (inl refl)
