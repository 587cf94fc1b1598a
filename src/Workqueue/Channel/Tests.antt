-- ===== src/Workqueue/Channel/Tests.antt =====
-- Runs of channels over a 32-bit `usize`; values and wakers are numbers.
use px4_rs.Prelude.{ℕ, ◌^◌, ◌≡◌, refl, some, none, List, [], ◌∷◌, arith}
use px4_rs.Workqueue.AtomicWaker.{WakerState, new_waker, wake}
use px4_rs.Workqueue.Channel.{Channel, ok, full, empty, value, new_channel, try_send, try_recv}
use px4_rs.Workqueue.Channel.Fifo.{Holds}
use px4_rs.Workqueue.Channel.Runs.{Op, send, recv, sent, received, run, run_queue, run_refines}
use px4_rs.Workqueue.Channel.Wrap.{cycle, wrap_loses}

abbrev word : ℕ
word = 2 ^ 32

abbrev fresh : ℕ → Channel ℕ ℕ
fresh n = new_channel word n

-- Capacity 4, with the counters about to wrap: 8 at the last counter, 9 at the first.
abbrev wrapped : Channel ℕ ℕ
wrapped = record {
  buf = some 9 ∷ none ∷ none ∷ some 8 ∷ [];
  head = 4_294_967_295;
  tail = 1;
  recv_waker = record { state = WakerState.waiting; waker = none };
  send_waker = record { state = WakerState.waiting; waker = some 3 };
}

wrapped-Holds : Holds word 4 wrapped 4_294_967_295 (8 ∷ 9 ∷ [])
wrapped-Holds = record {
  head_mod = refl;
  tail_mod = refl;
  room = omega arith;
  slots = refl;
  stored = (refl, (refl, tt));
}

-- Capacity 2, both slots taken.
abbrev packed : Channel ℕ ℕ
packed = record wrapped { buf = some 8 ∷ some 9 ∷ []; head = 0; tail = 2 }

packed-Holds : Holds word 2 packed 0 (8 ∷ 9 ∷ [])
packed-Holds = record {
  head_mod = refl;
  tail_mod = refl;
  room = omega arith;
  slots = refl;
  stored = (refl, (refl, tt));
}

abbrev script : List (Op ℕ)
script = send 1 ∷ recv ∷ recv ∷ send 2 ∷ send 3 ∷ send 4 ∷ recv ∷ []

script_runs :
    run word 2 (fresh 2) script
    ≡ sent ok
      ∷ received (value 1)
      ∷ received empty
      ∷ sent ok
      ∷ sent ok
      ∷ sent (full 4)
      ∷ received (value 2)
      ∷ []
unfolding run new_channel try_send try_recv wake new_waker
script_runs = refl

run_refines_example : run word 2 (fresh 2) script ≡ run_queue 2 [] script
run_refines_example = run_refines ℕ word 2 refl (omega arith) script

wrap_loses_example :
    (try_recv word 3
      (try_send word 3 12
        (try_send word 3 11 (cycle word 3 4_294_967_295 0 (fresh 3))).chan).chan).result
    ≡ value 12
wrap_loses_example = wrap_loses ℕ word 3 0 11 12 (omega arith) (omega arith) refl
