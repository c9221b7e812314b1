-- ===== src/Kernel.antt =====
-- What the programs use of the kernel, which is not part of the repository: the helper functions
-- of `bpf_helpers.h` (common/include/bpf_helpers.h), hash maps, per-CPU arrays and ring buffers.
-- Each is a record over an unknown state, with a second record for what the programs rely on.
pub mod Memory
pub mod Slots
pub mod PerCpu
use monsa_ebpf.Base.{ℕ, suc, ◌+◌, ◌-◌, ◌<◌, ◌≡◌, ◌≢◌, ◌⊎◌, Bool, true, false, Option, none, some}
use monsa_ebpf.Base.{List, [], ◌∷◌, ◌++◌, length, if◌then◌else◌}
use Prim.Native.String.{String}

-- What the helpers return during one run of a program.
pub record Helpers : Type 0 where
  pub pid_tgid : ℕ  -- bpf_get_current_pid_tgid
  pub uid_gid : ℕ  -- bpf_get_current_uid_gid
  pub cgroup_id : ℕ  -- bpf_get_current_cgroup_id
  pub ktime_ns : ℕ  -- bpf_ktime_get_ns
  pub cpu : ℕ  -- bpf_get_smp_processor_id
  pub comm : List ℕ  -- bpf_get_current_comm, the sixteen bytes

-- A call of `bpf_printk`: the format, and the arguments as words or bytes.
pub data Arg : Type 0 where
  word : ℕ → Arg
  bytes : List ℕ → Arg

pub record Line : Type 0 where
  pub format : String
  pub args : List Arg

-- What the `PT_REGS_*` macros read of a probe's registers, each an unsigned long.
pub record PtRegs : Type 0 where
  pub parm1 : ℕ
  pub parm2 : ℕ
  pub parm3 : ℕ
  pub rc : ℕ

-- The verdicts of `linux/bpf.h` and `linux/pkt_cls.h` that the programs return.
abbrev pub xdp_pass_action : ℕ
xdp_pass_action = 2

abbrev pub sk_pass : ℕ
sk_pass = 1

abbrev pub tc_act_ok : ℕ
tc_act_ok = 0

-- A map as its programs see it. `store` writes through the pointer that a lookup returned;
-- `update` is `bpf_map_update_elem` with `BPF_ANY`, whose result code no program reads.
pub record HashMap (K V : Type 0) : Type 1 where
  pub Map : Type 0
  pub lookup : Map → K → Option V
  pub store : Map → K → V → Map
  pub update : Map → K → V → Map
  pub delete : Map → K → Map
  pub admits : Map → K → Bool

-- `BPF_MAP_TYPE_HASH`: an update of a new key fails if the map is full, and changes nothing then.
pub record IsHash {K V : Type 0} (H : HashMap K V) : Type 0 where
  pub lookup-store_self :
      (m : H.Map) (k : K) (v : V) → H.lookup m k ≢ none → H.lookup (H.store m k v) k ≡ some v
  pub lookup-store_other :
      (m : H.Map) (k j : K) (v : V) → k ≢ j → H.lookup (H.store m k v) j ≡ H.lookup m j
  pub lookup-update_self :
      (m : H.Map) (k : K) (v : V)
      → H.lookup (H.update m k v) k ≡ (if H.admits m k then some v else H.lookup m k)
  pub lookup-update_other :
      (m : H.Map) (k j : K) (v : V) → k ≢ j → H.lookup (H.update m k v) j ≡ H.lookup m j
  pub admits_present : (m : H.Map) (k : K) → H.lookup m k ≢ none → H.admits m k ≡ true
  pub lookup-delete_self : (m : H.Map) (k : K) → H.lookup (H.delete m k) k ≡ none
  pub lookup-delete_other : (m : H.Map) (k j : K) → k ≢ j → H.lookup (H.delete m k) j ≡ H.lookup m j

-- `BPF_MAP_TYPE_LRU_HASH`: an update always finds room, and may evict other keys.
pub record IsLruHash {K V : Type 0} (H : HashMap K V) : Type 0 where
  pub lookup-store_self :
      (m : H.Map) (k : K) (v : V) → H.lookup m k ≢ none → H.lookup (H.store m k v) k ≡ some v
  pub lookup-store_other :
      (m : H.Map) (k j : K) (v : V) → k ≢ j → H.lookup (H.store m k v) j ≡ H.lookup m j
  pub lookup-update_self : (m : H.Map) (k : K) (v : V) → H.lookup (H.update m k v) k ≡ some v
  pub lookup-update_other :
      (m : H.Map) (k j : K) (v : V)
      → k ≢ j
      → (H.lookup (H.update m k v) j ≡ H.lookup m j) ⊎ (H.lookup (H.update m k v) j ≡ none)

-- `BPF_MAP_TYPE_RINGBUF`. A reservation is a record whose bytes are whatever the buffer held.
-- `output` copies a record in, or drops it where `has_room` fails.
pub record RingBuf (E : Type 0) : Type 1 where
  pub Buf : Type 0
  pub reserve : Buf → Option (Buf × E)
  pub submit : Buf → E → Buf
  pub output : Buf → E → Buf
  pub has_room : Buf → Bool
  pub events : Buf → List E  -- what the consumer is handed, oldest first
  pub pending : Buf → ℕ  -- reservations that are not submitted

pub record IsRing {E : Type 0} (R : RingBuf E) : Type 0 where
  pub events-reserve :
      (b : R.Buf) {b' : R.Buf} {e : E} → R.reserve b ≡ some (b', e) → R.events b' ≡ R.events b
  pub pending-reserve :
      (b : R.Buf) {b' : R.Buf} {e : E}
      → R.reserve b ≡ some (b', e)
      → R.pending b' ≡ suc (R.pending b)
  pub events-submit : (b : R.Buf) (e : E) → R.events (R.submit b e) ≡ R.events b ++ e ∷ []
  pub pending-submit : (b : R.Buf) (e : E) → R.pending (R.submit b e) ≡ R.pending b - 1
  pub events-output :
      (b : R.Buf) (e : E)
      → R.events (R.output b e) ≡ (if R.has_room b then R.events b ++ e ∷ [] else R.events b)
  pub pending-output : (b : R.Buf) (e : E) → R.pending (R.output b e) ≡ R.pending b

-- The consumer's side: once it is done with the oldest record, that makes room.
pub record IsConsumer {E : Type 0} (R : RingBuf E) (consume : R.Buf → R.Buf) : Type 0 where
  pub events-consume :
      (b : R.Buf) (e : E) (rest : List E) → R.events b ≡ e ∷ rest → R.events (consume b) ≡ rest
  pub pending-consume : (b : R.Buf) → R.pending (consume b) ≡ R.pending b

-- A ring with room for `limit` records: with none reserved, a reservation fails only if that many
-- wait for the consumer.
pub record HasRoom {E : Type 0} (R : RingBuf E) (limit : ℕ) : Type 0 where
  pub reserve-succeeds :
      (b : R.Buf)
      → R.pending b ≡ 0
      → length (R.events b) < limit
      → (b' : R.Buf) × (old : E) × (R.reserve b ≡ some (b', old))
