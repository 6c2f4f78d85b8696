-- ===== src/Rmstub/Tests.antt =====
-- Runs of the receiver stub.
use freedos_micro_python.Prelude.{◌≡◌, refl, none, [], false, arith, length}
use freedos_micro_python.Rmstub.{decode, run, far_call, fill_thunk}
use freedos_micro_python.Rmstub.Phases.{ready, Returned, far_call-answer}

-- The code ends before the data words.
code_fits : length (fill_thunk [] 0x2000).code ≡ 0x40
unfolding fill_thunk
code_fits = refl

-- Code outside the stub stops the run.
no_instruction :
    run 5 (record {
      ip = 0;
      ax = 0;
      cx = 0;
      es = 0;
      di = 0;
      zf = false;
      cf = false;
      thunk = fill_thunk [] 0x2000;
    })
    ≡ none
unfolding fill_thunk decode run
no_instruction = refl

far_call-answer_example :
    Returned (ready [] 0x2000 0 60) 0x2000 0 (far_call 0 60 7 7 (ready [] 0x2000 0 0))
far_call-answer_example = far_call-answer [] 0x2000 0 0 0 60 7 7 (omega arith)
