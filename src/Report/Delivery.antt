-- ===== src/Report/Delivery.antt =====
-- The records of every example with a ring on their way from the program to the loader's output.
pub mod Untrusted
use monsa_ebpf.Base.{ℕ, List, [], none, some, ◌≡◌, refl, ap}
use monsa_ebpf.Loader.{
  Example, kprobe, kretprobe, raw_tracepoint, tracepoint, fentry_fexit, xdp, tc, socket_filter,
  sk_lookup, cgroup_bpf, cgroup_device, cgroup_skb, cgroup_sock, cgroup_sock_addr, cgroup_sockopt,
  cgroup_sysctl, perf_event, uprobe, uretprobe, lsm,
}
use monsa_ebpf.Report.Layout.{AllFit}
use monsa_ebpf.Report.Wire.{submitted, received, received-submitted}
use monsa_ebpf.Report.Print.{Line, Wire}
use monsa_ebpf.Report.Records.Probes.{kprobe_wire, kprobe_report, kretprobe_wire, kretprobe_report}
use monsa_ebpf.Report.Records.Tracing.{
  raw_tracepoint_wire, raw_tracepoint_report, tracepoint_wire, tracepoint_report, fentry_fexit_wire,
  fentry_fexit_report,
}
use monsa_ebpf.Report.Records.Network.{
  xdp_wire, xdp_report, tc_wire, tc_report, socket_filter_wire, socket_filter_report,
  sk_lookup_wire, sk_lookup_report,
}
use monsa_ebpf.Report.Records.Cgroup.{
  cgroup_bpf_wire, cgroup_bpf_report, cgroup_device_wire, cgroup_device_report, cgroup_skb_wire,
  cgroup_skb_report, cgroup_sock_wire, cgroup_sock_report,
}
use monsa_ebpf.Report.Records.Sockets.{
  cgroup_sock_addr_wire, cgroup_sock_addr_report, cgroup_sockopt_wire, cgroup_sockopt_report,
  cgroup_sysctl_wire, cgroup_sysctl_report,
}
use monsa_ebpf.Report.Records.Others.{
  perf_event_wire, perf_event_report, uprobe_wire, uprobe_report, uretprobe_wire, uretprobe_report,
  lsm_wire, lsm_report,
}
use monsa_ebpf.Report.Records.Basic.{
  exec_wire, exec_report, exec_latency_wire, exec_latency_report, file_open_wire, file_open_report,
}
use monsa_ebpf.Basic.Probes.{ExecEvent, ExecLatencyEvent, FileOpenEvent}
use monsa_ebpf.Advanced.Tracing.Kprobe.{KprobeEvent}
use monsa_ebpf.Advanced.Tracing.Kretprobe.{KretprobeEvent}
use monsa_ebpf.Advanced.Tracing.RawTracepoint.{RawTpEvent}
use monsa_ebpf.Advanced.Tracing.Tracepoint.{TpEvent}
use monsa_ebpf.Advanced.Tracing.FentryFexit.{FentryFexitEvent}
use monsa_ebpf.Advanced.Network.Xdp.{XdpEvent}
use monsa_ebpf.Advanced.Network.Tc.{TcEvent}
use monsa_ebpf.Advanced.Network.SocketFilter.{SocketFilterEvent}
use monsa_ebpf.Advanced.Network.SkLookup.{SkLookupEvent}
use monsa_ebpf.Advanced.Cgroup.CgroupBpf.{CgroupBpfEvent}
use monsa_ebpf.Advanced.Cgroup.CgroupDevice.{CgroupDeviceEvent}
use monsa_ebpf.Advanced.Cgroup.CgroupSkb.{CgroupSkbEvent}
use monsa_ebpf.Advanced.Cgroup.CgroupSock.{CgroupSockEvent}
use monsa_ebpf.Advanced.Cgroup.CgroupSockAddr.{CgroupSockAddrEvent}
use monsa_ebpf.Advanced.Cgroup.CgroupSockopt.{CgroupSockoptEvent}
use monsa_ebpf.Advanced.Cgroup.CgroupSysctl.{CgroupSysctlEvent}
use monsa_ebpf.Advanced.Perf.PerfEvent.{PerfSample}
use monsa_ebpf.Advanced.Userspace.Uprobe.{UprobeEvent}
use monsa_ebpf.Advanced.Userspace.Uretprobe.{UretprobeEvent}
use monsa_ebpf.Advanced.Security.LsmFileOpen.{LsmEvent}

-- The examples with a ring: all of S2-advanced, and kprobe, fentry_fexit and lsm of S1-basic.
pub data Source : Type 0 where
  advanced : Example → Source
  exec : Source
  exec_latency : Source
  file_open : Source

abbrev pub EventOf : Source → Type 0
EventOf (advanced kprobe) = KprobeEvent
EventOf (advanced kretprobe) = KretprobeEvent
EventOf (advanced raw_tracepoint) = RawTpEvent
EventOf (advanced tracepoint) = TpEvent
EventOf (advanced fentry_fexit) = FentryFexitEvent
EventOf (advanced xdp) = XdpEvent
EventOf (advanced tc) = TcEvent
EventOf (advanced socket_filter) = SocketFilterEvent
EventOf (advanced sk_lookup) = SkLookupEvent
EventOf (advanced cgroup_bpf) = CgroupBpfEvent
EventOf (advanced cgroup_device) = CgroupDeviceEvent
EventOf (advanced cgroup_skb) = CgroupSkbEvent
EventOf (advanced cgroup_sock) = CgroupSockEvent
EventOf (advanced cgroup_sock_addr) = CgroupSockAddrEvent
EventOf (advanced cgroup_sockopt) = CgroupSockoptEvent
EventOf (advanced cgroup_sysctl) = CgroupSysctlEvent
EventOf (advanced perf_event) = PerfSample
EventOf (advanced uprobe) = UprobeEvent
EventOf (advanced uretprobe) = UretprobeEvent
EventOf (advanced lsm) = LsmEvent
EventOf exec = ExecEvent
EventOf exec_latency = ExecLatencyEvent
EventOf file_open = FileOpenEvent

abbrev pub wire_of : (x : Source) → Wire (EventOf x)
wire_of (advanced kprobe) = kprobe_wire
wire_of (advanced kretprobe) = kretprobe_wire
wire_of (advanced raw_tracepoint) = raw_tracepoint_wire
wire_of (advanced tracepoint) = tracepoint_wire
wire_of (advanced fentry_fexit) = fentry_fexit_wire
wire_of (advanced xdp) = xdp_wire
wire_of (advanced tc) = tc_wire
wire_of (advanced socket_filter) = socket_filter_wire
wire_of (advanced sk_lookup) = sk_lookup_wire
wire_of (advanced cgroup_bpf) = cgroup_bpf_wire
wire_of (advanced cgroup_device) = cgroup_device_wire
wire_of (advanced cgroup_skb) = cgroup_skb_wire
wire_of (advanced cgroup_sock) = cgroup_sock_wire
wire_of (advanced cgroup_sock_addr) = cgroup_sock_addr_wire
wire_of (advanced cgroup_sockopt) = cgroup_sockopt_wire
wire_of (advanced cgroup_sysctl) = cgroup_sysctl_wire
wire_of (advanced perf_event) = perf_event_wire
wire_of (advanced uprobe) = uprobe_wire
wire_of (advanced uretprobe) = uretprobe_wire
wire_of (advanced lsm) = lsm_wire
wire_of exec = exec_wire
wire_of exec_latency = exec_latency_wire
wire_of file_open = file_open_wire

unfoldable pub report_of : (x : Source) → EventOf x → List Line
unfolding kprobe_report kretprobe_report raw_tracepoint_report tracepoint_report fentry_fexit_report
    xdp_report tc_report socket_filter_report sk_lookup_report cgroup_bpf_report
    cgroup_device_report cgroup_skb_report cgroup_sock_report cgroup_sock_addr_report
    cgroup_sockopt_report cgroup_sysctl_report perf_event_report uprobe_report uretprobe_report
    lsm_report exec_report exec_latency_report file_open_report
report_of (advanced kprobe) = kprobe_report
report_of (advanced kretprobe) = kretprobe_report
report_of (advanced raw_tracepoint) = raw_tracepoint_report
report_of (advanced tracepoint) = tracepoint_report
report_of (advanced fentry_fexit) = fentry_fexit_report
report_of (advanced xdp) = xdp_report
report_of (advanced tc) = tc_report
report_of (advanced socket_filter) = socket_filter_report
report_of (advanced sk_lookup) = sk_lookup_report
report_of (advanced cgroup_bpf) = cgroup_bpf_report
report_of (advanced cgroup_device) = cgroup_device_report
report_of (advanced cgroup_skb) = cgroup_skb_report
report_of (advanced cgroup_sock) = cgroup_sock_report
report_of (advanced cgroup_sock_addr) = cgroup_sock_addr_report
report_of (advanced cgroup_sockopt) = cgroup_sockopt_report
report_of (advanced cgroup_sysctl) = cgroup_sysctl_report
report_of (advanced perf_event) = perf_event_report
report_of (advanced uprobe) = uprobe_report
report_of (advanced uretprobe) = uretprobe_report
report_of (advanced lsm) = lsm_report
report_of exec = exec_report
report_of exec_latency = exec_latency_report
report_of file_open = file_open_report

-- `handle_event`: nothing for a record that is too small, else the lines of its fields.
unfoldable pub handle_event : (x : Source) → List ℕ → List Line
unfolding report_of received
handle_event x bytes = elim (received (wire_of x).read bytes) [
  | none ↦ []
  | some vs ↦ report_of x ((wire_of x).loaded vs)
]

-- The loader declares each record as the program does.
same_layout : (x : Source) → (wire_of x).written ≡ (wire_of x).read
same_layout (advanced kprobe) = refl
same_layout (advanced kretprobe) = refl
same_layout (advanced raw_tracepoint) = refl
same_layout (advanced tracepoint) = refl
same_layout (advanced fentry_fexit) = refl
same_layout (advanced xdp) = refl
same_layout (advanced tc) = refl
same_layout (advanced socket_filter) = refl
same_layout (advanced sk_lookup) = refl
same_layout (advanced cgroup_bpf) = refl
same_layout (advanced cgroup_device) = refl
same_layout (advanced cgroup_skb) = refl
same_layout (advanced cgroup_sock) = refl
same_layout (advanced cgroup_sock_addr) = refl
same_layout (advanced cgroup_sockopt) = refl
same_layout (advanced cgroup_sysctl) = refl
same_layout (advanced perf_event) = refl
same_layout (advanced uprobe) = refl
same_layout (advanced uretprobe) = refl
same_layout (advanced lsm) = refl
same_layout exec = refl
same_layout exec_latency = refl
same_layout file_open = refl

loaded-stored : (x : Source) (e : EventOf x) → (wire_of x).loaded ((wire_of x).stored e) ≡ e
loaded-stored (advanced kprobe) e = refl
loaded-stored (advanced kretprobe) e = refl
loaded-stored (advanced raw_tracepoint) e = refl
loaded-stored (advanced tracepoint) e = refl
loaded-stored (advanced fentry_fexit) e = refl
loaded-stored (advanced xdp) e = refl
loaded-stored (advanced tc) e = refl
loaded-stored (advanced socket_filter) e = refl
loaded-stored (advanced sk_lookup) e = refl
loaded-stored (advanced cgroup_bpf) e = refl
loaded-stored (advanced cgroup_device) e = refl
loaded-stored (advanced cgroup_skb) e = refl
loaded-stored (advanced cgroup_sock) e = refl
loaded-stored (advanced cgroup_sock_addr) e = refl
loaded-stored (advanced cgroup_sockopt) e = refl
loaded-stored (advanced cgroup_sysctl) e = refl
loaded-stored (advanced perf_event) e = refl
loaded-stored (advanced uprobe) e = refl
loaded-stored (advanced uretprobe) e = refl
loaded-stored (advanced lsm) e = refl
loaded-stored exec e = refl
loaded-stored exec_latency e = refl
loaded-stored file_open e = refl

-- Of every record that a program with a ring submits with fields in the ranges of their types, its
-- loader prints exactly that record: none is dropped for its size, and no field is read from another
-- place, whatever the bytes of the padding are.
pub handle_event-submitted :
    (x : Source) (old : ℕ → ℕ) (e : EventOf x)
    → AllFit (wire_of x).written ((wire_of x).stored e)
    → handle_event x (submitted old (wire_of x).written ((wire_of x).stored e)) ≡ report_of x e
unfolding handle_event
handle_event-submitted x old e fit =
    let arrives : received (wire_of x).read
          (submitted old (wire_of x).written ((wire_of x).stored e))
        ≡ some ((wire_of x).stored e) =
      rw (← same_layout x)
        (received-submitted old (wire_of x).written ((wire_of x).stored e) fit) in
    rw (arrives, handle_event) (ap (report_of x) (loaded-stored x e))
