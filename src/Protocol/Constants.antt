-- ===== src/Protocol/Constants.antt =====
-- kcp-core/src/protocol.rs, `mod constants`.
use rust_kcp.Base.{ℕ}

abbrev pub ikcp_rto_ndl : ℕ
ikcp_rto_ndl = 30

abbrev pub ikcp_rto_min : ℕ
ikcp_rto_min = 100

abbrev pub ikcp_rto_def : ℕ
ikcp_rto_def = 200

abbrev pub ikcp_rto_max : ℕ
ikcp_rto_max = 60000

abbrev pub ikcp_cmd_push : ℕ
ikcp_cmd_push = 81

abbrev pub ikcp_cmd_ack : ℕ
ikcp_cmd_ack = 82

abbrev pub ikcp_cmd_wask : ℕ
ikcp_cmd_wask = 83

abbrev pub ikcp_cmd_wins : ℕ
ikcp_cmd_wins = 84

abbrev pub ikcp_ask_send : ℕ
ikcp_ask_send = 1

abbrev pub ikcp_ask_tell : ℕ
ikcp_ask_tell = 2

abbrev pub ikcp_wnd_rcv : ℕ
ikcp_wnd_rcv = 128

abbrev pub ikcp_overhead : ℕ
ikcp_overhead = 24

abbrev pub ikcp_thresh_init : ℕ
ikcp_thresh_init = 2

abbrev pub ikcp_thresh_min : ℕ
ikcp_thresh_min = 2

abbrev pub ikcp_probe_init : ℕ
ikcp_probe_init = 7000

abbrev pub ikcp_probe_limit : ℕ
ikcp_probe_limit = 120000

abbrev pub ikcp_fastack_limit : ℕ
ikcp_fastack_limit = 5
