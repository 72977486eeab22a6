-- ===== src/OsThread/Create.antt =====
-- `pthread_create` in core/OSThread.c, and which thread is which. `malloc` of the C library, `clone`
-- of the kernel and the size of `OSThread`, which depends on the SDK's headers, are parameters.
use lib_system_and_linker.Prelude.{
  ℕ, ◌+◌, ◌*◌, ◌%◌, ◌^◌, ◌<◌, ◌==◌, ◌≡◌, if◌then◌else◌, Option, none, some, arith,
}
use lib_system_and_linker.OsThread.Tls.{tls_count}
use lib_system_and_linker.OsThread.Attributes.{ThreadAttributes, default_thread_stack}

-- `OSTlsEntry` is four words of 4 bytes; this is `OS_TLS_SIZE`.
abbrev pub tls_size : ℕ
tls_size = tls_count * 16

-- `void *` arithmetic and `int` sums on a 32-bit machine.
abbrev pub u32 : ℕ → ℕ
u32 n = n % 2 ^ 32

-- What `pthread_create` leaves: the block's address, which is also what `*pthread` receives, the
-- fields that it stores in the header, the range that it clears, and the stack it hands to `clone`.
pub record NewThread : Type 0 where
  pub thread : ℕ
  pub requested : ℕ
  pub top_stack : ℕ
  pub thread_entry : ℕ
  pub thread_arg : ℕ
  pub pid : ℕ
  pub cleared_from : ℕ
  pub cleared_size : ℕ
  pub child_stack : ℕ

-- `GetTlsMap(x)`
unfoldable pub get_tls_map : ℕ → ℕ → ℕ
get_tls_map sizeof_thread thread = u32 (thread + sizeof_thread)

-- `int stack_sz`, as a bit pattern.
abbrev pub stack_size_of : Option ThreadAttributes → ℕ
stack_size_of none = default_thread_stack
stack_size_of (some attr) = u32 attr.stack_size

module _ (sizeof_thread : ℕ) (malloc : ℕ → ℕ) (clone : ℕ → ℕ → ℕ) where
  unfoldable pub pthread_create : Option ThreadAttributes → ℕ → ℕ → NewThread × ℕ
  pthread_create attr start_routine arg =
      let stack_sz = stack_size_of attr in
      let total = u32 (sizeof_thread + tls_size + stack_sz) in
      let thread = malloc total in
      let stack_start = u32 (thread + sizeof_thread + tls_size) in
      let stack_end = u32 (stack_start + stack_sz) in
      (
        record {
          thread = thread;
          requested = total;
          top_stack = stack_end;
          thread_entry = start_routine;
          thread_arg = arg;
          pid = clone stack_end thread;
          cleared_from = stack_start;
          cleared_size = stack_sz;
          child_stack = stack_end;
        },
        0,
      )

  -- Where the sum of the three sizes and the end of the block fit 32 bits, the header, the table of
  -- thread-local storage and the stack stand one behind the other and fill the block exactly, the
  -- stack has the size that the attributes ask for, or 65536 bytes without any, and just the stack is
  -- cleared: the table is left as `malloc` found it.
  pub create_layout :
      (attr : Option ThreadAttributes) (start_routine arg : ℕ)
      → sizeof_thread + tls_size + stack_size_of attr < 2 ^ 32
      → malloc (sizeof_thread + tls_size + stack_size_of attr)
          + (sizeof_thread + tls_size + stack_size_of attr)
        < 2 ^ 32
      → let new = (pthread_create attr start_routine arg).0 in
        (new.requested ≡ sizeof_thread + tls_size + stack_size_of attr)
        × (get_tls_map sizeof_thread new.thread ≡ new.thread + sizeof_thread)
        × (new.cleared_from ≡ get_tls_map sizeof_thread new.thread + tls_size)
        × (new.cleared_from + stack_size_of attr ≡ new.top_stack)
        × (new.cleared_size ≡ stack_size_of attr)
        × (new.top_stack ≡ new.thread + new.requested)
        × (new.child_stack ≡ new.top_stack)
  unfolding pthread_create get_tls_map
  create_layout attr start_routine arg fits ends =
      let e : u32 total ≡ total = omega arith in rw e (omega arith)
    where
      total : ℕ
      total = sizeof_thread + tls_size + stack_size_of attr

-- `_getOSThread`: 0 stands for the main thread, whose block is at `main_thread`.
unfoldable pub get_os_thread : ℕ → ℕ → ℕ
get_os_thread main_thread pt = if pt == 0 then main_thread else pt

unfoldable pub pthread_equal : ℕ → ℕ → ℕ → ℕ
unfolding get_os_thread
pthread_equal main_thread one two =
    if get_os_thread main_thread one == get_os_thread main_thread two then 1 else 0

-- The `pid` field of the current thread.
unfoldable pub pthread_main_np : ℕ → ℕ
pthread_main_np pid = if pid == 0 then 1 else 0
