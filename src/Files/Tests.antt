-- ===== src/Files/Tests.antt =====
-- Runs of the file methods on the small DOS.
use freedos_micro_python.Prelude.{◌≡◌, refl, some, List, [], ◌∷◌, arith, codes}
use freedos_micro_python.Dos21.Disk.{OpenFile}
use freedos_micro_python.Dos21.Simulator.{
  sim, sim_view, sim_linear, sim_state, sim_state-IsReady, sim-IsDos,
}
use freedos_micro_python.Files.{
  textio, fileio, File, fileio, read_request, flush_request, close_request, other_request, Request,
  file_read, file_write, file_close,
}
use freedos_micro_python.Files.Opening.{has, last_of, access_of, access_mode, kind_of, kind}
use freedos_micro_python.Files.Reading.{IsRead, file_read-IsRead}
use freedos_micro_python.Files.Writing.{IsWritten, file_write-IsWritten}
use freedos_micro_python.Files.Closing.{run_requests, replies_to, run_requests-file_close}

abbrev hello : OpenFile
hello = record { contents = codes "hello"; pos = 1 }

abbrev handle : File
handle = record { kind = fileio; fd = some 5 }

file_read-IsRead_example :
    IsRead sim_view sim sim_linear 9 5 [] hello (file_read sim handle 9 (sim_state hello))
file_read-IsRead_example =
    file_read-IsRead sim_view sim sim_linear handle 5 9 (sim_state hello) hello sim-IsDos
      (sim_state-IsReady hello) refl refl

file_write-IsWritten_example :
    IsWritten sim_view sim sim_linear 5
      (codes "abcdef")
      5
      0
      hello
      (file_write sim handle (codes "abcdef") 5 (sim_state hello))
file_write-IsWritten_example =
    file_write-IsWritten sim_view sim sim_linear handle 5 (codes "abcdef") 5 (sim_state hello) hello
      sim-IsDos (sim_state-IsReady hello) refl (omega arith) (omega arith) refl

abbrev requests : List Request
requests = read_request 3 ∷ flush_request ∷ close_request ∷ other_request ∷ []

run_requests-file_close_example :
    run_requests sim requests (file_close sim handle (sim_state hello))
    ≡ (replies_to requests, file_close sim handle (sim_state hello))
run_requests-file_close_example = run_requests-file_close sim requests handle (sim_state hello)

-- Letters that come later count.
update_mode :
    (access_mode (codes "rb+") ≡ 2) × (kind (codes "rb+") ≡ fileio) × (kind (codes "rbt") ≡ textio)
unfolding access_of kind_of last_of has
update_mode = (refl, refl, refl)
