-- ===== src/Pktdrv/Tests.antt =====
-- Frames that come and go.
use freedos_micro_python.Prelude.{
  ◌≡◌, ◌≤◌, refl, false, some, List, [], ◌∷◌, arith, replicate, length, take, min, codes,
}
use freedos_micro_python.Rmstub.Phases.{ready}
use freedos_micro_python.Pktdrv.{Driver, receiver, null, recv_slot}
use freedos_micro_python.Pktdrv.Receive.{upcall, IsAttached, recv_slot-upcall}
use freedos_micro_python.Pktdrv.Bounds.{Event, receive, after_all, IsSlot, recv_slot-bounds}

-- A driver that is attached to the stub.
abbrev attached : Driver
attached = record {
  nic = record { ne2k_mac = []; ne2k_initialized = false };
  int_num = some 0x60;
  rx_buf = replicate 1518 0;
  rx_pending = false;
  rx_len = 0;
  bounce_seg = 0x2000;
  bounce_linear = 0x20000;
  bounce = replicate 2048 0;
  thunk_seg = 0x2100;
  thunk = ready [] 0x2000 0 0;
}

-- The callback refuses a second frame.
second_refused : (receiver 0 9 (receiver 1 0 (receiver 0 60 attached).1).1).0 ≡ null
unfolding receiver
second_refused = refl

attached-IsAttached : IsAttached attached [] 0 0
attached-IsAttached = record {
  thunk = refl;
  thunk_seg = omega arith;
  bounce_linear = omega arith;
  bounce_from = omega arith;
  bounce_to = omega arith;
}

attached-IsSlot : IsSlot attached
attached-IsSlot = record { rx_buf = refl; rx_len = omega arith; bounce = omega arith }

recv_slot-upcall_example :
    (d' : Driver) × (upcall (codes "frame") attached ≡ some d')
    × ((recv_slot 3 d').0 ≡ (min 5 3, take (min 5 3) (codes "frame")))
    × IsAttached (recv_slot 3 d').1 [] 0 5
    × ((recv_slot 3 d').1.rx_pending ≡ false)
recv_slot-upcall_example =
    recv_slot-upcall attached [] 0 0 3 (codes "frame") attached-IsAttached refl (omega arith)
      (omega arith)

abbrev two_calls : List Event
two_calls = receive 0 60 ∷ receive 1 0 ∷ []

recv_slot-bounds_example :
    IsSlot (after_all two_calls attached)
    × ((recv_slot 20 (after_all two_calls attached)).0.0 ≤ 20)
    × ((recv_slot 20 (after_all two_calls attached)).0.0 ≤ 1518)
    × (length (recv_slot 20 (after_all two_calls attached)).0.1
        ≡ (recv_slot 20 (after_all two_calls attached)).0.0)
recv_slot-bounds_example = recv_slot-bounds two_calls 20 attached attached-IsSlot
