-- ===== src/Kernel.antt =====
-- The static data of the kernel that the scheduler and the pipes share: `task_t` and the constants
-- of src/sched.h, the globals of src/sched.c, and the pipe pool of src/native_pipe.c.
-- A `task_t *` is the task's slot in `task_pool`, and a null pointer is `none`. An array is a
-- function of its index. An `int` that is negative or an index is an option.
use atmkoala.Base.{ℕ, Option, none, some, List, [], Bool, true, false, update}

abbrev pub task_max : ℕ
task_max = 16

abbrev pub task_fd_max : ℕ
task_fd_max = 32

abbrev pub task_no_parent : ℕ
task_no_parent = 0xFFFFFFFF

abbrev pub task_wait_any : ℕ
task_wait_any = 0xFFFFFFFF

abbrev pub task_stack_size : ℕ
task_stack_size = 4096

abbrev pub u32_mod : ℕ
u32_mod = 0x1_0000_0000

abbrev pub u64_mod : ℕ
u64_mod = 0x1_0000_0000_0000_0000

-- `task_state_t`
pub data TaskState : Type 0 where
  unused ready running blocked zombie : TaskState

abbrev pub is_unused : TaskState → Bool
is_unused TaskState.unused = true
is_unused _ = false

abbrev pub is_ready : TaskState → Bool
is_ready TaskState.ready = true
is_ready _ = false

abbrev pub is_running : TaskState → Bool
is_running TaskState.running = true
is_running _ = false

abbrev pub is_blocked : TaskState → Bool
is_blocked TaskState.blocked = true
is_blocked _ = false

abbrev pub is_zombie : TaskState → Bool
is_zombie TaskState.zombie = true
is_zombie _ = false

-- `task_t`, less the saved registers and the image of a native program. `address_space` and
-- `stack_base` are addresses of heap blocks.
pub record Task : Type 0 where
  pub pid : ℕ
  pub ppid : ℕ
  pub pgid : ℕ
  pub sid : ℕ
  pub uid : ℕ
  pub gid : ℕ
  pub cwd : List ℕ
  pub umask_value : ℕ
  pub name : List ℕ
  pub state : TaskState
  pub stack_base : Option ℕ
  pub stack_size : ℕ
  pub ticks : ℕ
  pub created_ticks : ℕ
  pub state_changed_ticks : ℕ
  pub resident_bytes : ℕ
  pub context_switches : ℕ
  pub priority : ℕ
  pub exit_code : ℕ
  pub exit_signal : ℕ
  pub pending_signal : ℕ
  pub wait_target : ℕ
  pub wait_active : Bool
  pub address_space : Option ℕ
  pub fd_table_ready : Bool
  pub fd_map : ℕ → Option ℕ
  pub socket_map : ℕ → Option ℕ
  pub pipe_map : ℕ → Option ℕ
  pub next : Option ℕ

-- `kmemset(t, 0, sizeof(*t))`. Zeroed descriptor maps hold the index 0, not -1.
abbrev pub zero_task : Task
zero_task = record {
  pid = 0;
  ppid = 0;
  pgid = 0;
  sid = 0;
  uid = 0;
  gid = 0;
  cwd = [];
  umask_value = 0;
  name = [];
  state = TaskState.unused;
  stack_base = none;
  stack_size = 0;
  ticks = 0;
  created_ticks = 0;
  state_changed_ticks = 0;
  resident_bytes = 0;
  context_switches = 0;
  priority = 0;
  exit_code = 0;
  exit_signal = 0;
  pending_signal = 0;
  wait_target = 0;
  wait_active = false;
  address_space = none;
  fd_table_ready = false;
  fd_map = λ i. some 0;
  socket_map = λ i. some 0;
  pipe_map = λ i. some 0;
  next = none;
}

-- `native_pipe_t`
pub record Pipe : Type 0 where
  pub buffer : ℕ → ℕ
  pub head : ℕ
  pub tail : ℕ
  pub count : ℕ
  pub read_refs : ℕ
  pub write_refs : ℕ
  pub reader_waiter : Option ℕ
  pub writer_waiter : Option ℕ
  pub used : Bool

-- `kmemset(pipe, 0, sizeof(*pipe))`
abbrev pub zero_pipe : Pipe
zero_pipe = record {
  buffer = λ i. 0;
  head = 0;
  tail = 0;
  count = 0;
  read_refs = 0;
  write_refs = 0;
  reader_waiter = none;
  writer_waiter = none;
  used = false;
}

-- `sched_sleep_meta_t`
pub record SleepMeta : Type 0 where
  pub deadline : ℕ
  pub active : Bool

-- The blocks that the scheduler hands back, in the order of its calls of `kfree` and of
-- `paging_destroy_user_space`.
pub data Release : Type 0 where
  destroy_space : ℕ → Release
  free_block : ℕ → Release

pub record Kernel : Type 0 where
  pub tasks : ℕ → Task
  pub current : Option ℕ
  pub run_queue_head : Option ℕ
  pub next_pid : ℕ
  pub uptime_ticks : ℕ
  pub idle_ticks : ℕ
  pub quantum_counter : ℕ
  pub sleep_meta : ℕ → SleepMeta
  pub released : List Release
  pub pipe_pool : ℕ → Pipe

-- A write through a task pointer, and through a pipe pointer.
abbrev pub set_task : Kernel → ℕ → Task → Kernel
set_task k t v = record k { tasks = update k.tasks t v }

abbrev pub set_pipe : Kernel → ℕ → Pipe → Kernel
set_pipe k i p = record k { pipe_pool = update k.pipe_pool i p }

abbrev pub set_state : Kernel → ℕ → TaskState → Kernel
set_state k t s =
    set_task k t (record (k.tasks t) { state = s; state_changed_ticks = k.uptime_ticks })
