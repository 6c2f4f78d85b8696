-- ===== src/Dos21/Tests.antt =====
-- Runs of the DOS calls on the small DOS.
use freedos_micro_python.Prelude.{arith, codes}
use freedos_micro_python.Dos21.{zero_rmcs, path_call}
use freedos_micro_python.Dos21.Disk.{OpenFile}
use freedos_micro_python.Dos21.Paths.{IsPathCall, path_call-IsPathCall}
use freedos_micro_python.Dos21.Simulator.{sim, sim_linear, sim_state, sim_state-IsReady}

abbrev hello : OpenFile
hello = record { contents = codes "hello"; pos = 1 }

path_call-IsPathCall_example :
    IsPathCall sim sim_linear
      (record zero_rmcs { eax = 0x3C00 })
      (codes "A.TXT")
      (sim_state hello)
      (path_call sim (record zero_rmcs { eax = 0x3C00 }) (codes "A.TXT") (sim_state hello))
path_call-IsPathCall_example =
    path_call-IsPathCall sim sim_linear (record zero_rmcs { eax = 0x3C00 }) (codes "A.TXT")
      (sim_state hello) (sim_state-IsReady hello) (omega arith)
