-- ===== src/Report/Print.antt =====
-- Calls of `printf`, and what the handlers of ring records share.
use monsa_ebpf.Base.{ℕ, ℤ, List, if◌then◌else◌, ◌==◌, String}
use monsa_ebpf.Report.Layout.{CType, Value}
use monsa_ebpf.Report.Timestamp.{format_timestamp}

-- An argument: a number, the bytes of a `char` array that `%s` prints up to its NUL, a literal, an
-- IPv4 address in network order, a number of thousandths, and a ratio of
-- nanoseconds in milliseconds, for `%.3f`.
pub data Arg : Type 0 where
  word : ℕ → Arg
  signed : ℤ → Arg
  string : List ℕ → Arg
  name : String → Arg
  address : ℕ → Arg
  thousandths : ℕ → Arg
  ratio : ℕ → ℕ → Arg

pub record Line : Type 0 where
  pub format : String
  pub args : List Arg

-- A record's layout where it is written and where it is read, and its fields in memory order.
pub record Wire (E : Type 0) : Type 0 where
  pub written : List CType
  pub read : List CType
  pub stored : E → List Value
  pub loaded : List Value → E

unfoldable pub proto_name : ℕ → String
proto_name proto = if proto == 6 then "TCP" else if proto == 17 then "UDP" else "OTHER"

-- `char ts[32]; format_timestamp(evt->timestamp_ns, ts, sizeof(ts));`
unfoldable pub clock : ℕ → List ℕ
unfolding format_timestamp
clock timestamp_ns = format_timestamp timestamp_ns 32
