-- ===== src/Crynwr/Tests.antt =====
-- Runs of attaching and sending on a small machine, whose state is the interrupt mask.
use freedos_micro_python.Prelude.{
  ℕ, ◌≡◌, refl, Bool, true, false, some, [], codes, replicate, ◌==◌, if◌then◌else◌, arith,
}
use freedos_micro_python.Ne2k.{Ports}
use freedos_micro_python.Rmstub.{Thunk}
use freedos_micro_python.Crynwr.{RealMode, Places, Link}
use freedos_micro_python.Crynwr.Attach.{init}
use freedos_micro_python.Crynwr.Attach.Outcome.{IsInit, init-IsInit}
use freedos_micro_python.Crynwr.Send.{send}
use freedos_micro_python.Crynwr.Send.Masking.{IsMasked, IsSend, send-IsSend}

abbrev ports : Ports ℕ
ports = record {
  inb = λ port s. (if port == 0xA1 then s else 0xFF, s);
  outb = λ port v s. (tt, if port == 0xA1 then v else s);
  insw = λ port n s. ([], s);
  outsw = λ port n b s. (tt, s);
  write = λ text s. (tt, s);
}

-- The driver unmasks everything, and answers.
abbrev real : RealMode ℕ
real = record {
  int_invoke = λ n regs s. ((true, regs), s);
  call_far = λ rm st. ((false, record rm { flags = 0; eax = 5 }), (st.0, 0));
  simulate_int = λ n rm st. ((true, rm), st);
  peek = λ a s. 0;
}

abbrev places : Places
places = record {
  mac_at = 0x1000;
  buf_at = 0x2000;
  rx_buf_at = 0x3000;
  rx_pending_at = 0x3800;
  rx_len_at = 0x3804;
  dpmi_thunk_at = 0x4000;
  rmcs_at = 0x5000;
  receiver_at = 0x6000;
  preallocated_bounce_seg = 0x2000;
  preallocated_bounce_linear = 0x20000;
  preallocated_thunk_seg = 0x2100;
}

abbrev thunk : Thunk
thunk = record { code = []; pending = 0; length = 0; bounce_seg = 0x2000 }

abbrev link : ℕ → Link
link int_num = record {
  driver = record {
    nic = record { ne2k_mac = []; ne2k_initialized = false };
    int_num = some int_num;
    rx_buf = [];
    rx_pending = false;
    rx_len = 0;
    bounce_seg = 0x2000;
    bounce_linear = 0x20000;
    bounce = replicate 8 0;
    thunk_seg = 0x2100;
    thunk = thunk;
  };
  handle = 5;
  handle_arp = 6;
  last_handle = 6;
  mac_cache = [];
  dpmi_seg = 0;
  dpmi_off = 0;
}

ports-IsMasked : IsMasked real places ports (λ s. s)
ports-IsMasked = record { read = λ s. refl; written = λ v s. refl; kept = λ n regs s. refl }

send-IsSend_example :
    (r : Bool × (Link × ℕ)) × ((send real places ports 1 (codes "frame") 5 (link 0x60, 0x42)
        ≡ (some r.0, r.1))
      × IsSend real places ports (λ s. s) (codes "frame") 5 (link 0x60) 0x42 r)
send-IsSend_example =
    send-IsSend real places ports (λ s. s) 1 (codes "frame") 5 (link 0x60) 0x42 ports-IsMasked refl
      (ground arith) (omega arith) (ground arith)

init-IsInit_example : IsInit real places (init real places ports (link 0, 0x42))
init-IsInit_example = init-IsInit real places ports (link 0) 0x42 refl refl
