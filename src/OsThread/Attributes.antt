-- ===== src/OsThread/Attributes.antt =====
-- Thread and mutex attributes in core/OSThread.c. A function returns the attributes and its result.
use lib_system_and_linker.Prelude.{ℕ, ◌*◌}
use lib_system_and_linker.OsThread.Mutex.{mutex_normal}

-- `OSThreadAttributes`
pub record ThreadAttributes : Type 0 where
  pub sig : ℕ
  pub stack_size : ℕ
  pub detach_state : ℕ

-- `OS_DEFAULT_THREAD_STACK`
abbrev pub default_thread_stack : ℕ
default_thread_stack = 1024 * 64

unfoldable pub pthread_attr_init : ThreadAttributes → ThreadAttributes × ℕ
pthread_attr_init attr =
    (record { sig = 0; stack_size = default_thread_stack; detach_state = 0 }, 0)

unfoldable pub pthread_attr_destroy : ThreadAttributes → ThreadAttributes × ℕ
pthread_attr_destroy attr = (attr, 0)

unfoldable pub pthread_attr_setdetachstate : ThreadAttributes → ℕ → ThreadAttributes × ℕ
pthread_attr_setdetachstate attr rs = (record attr { detach_state = rs }, 0)

unfoldable pub pthread_attr_setstacksize : ThreadAttributes → ℕ → ThreadAttributes × ℕ
pthread_attr_setstacksize attr rs = (record attr { stack_size = rs }, 0)

-- The argument is not looked at.
unfoldable pub pthread_attr_setscope : ThreadAttributes → ℕ → ThreadAttributes × ℕ
pthread_attr_setscope attr rs = (attr, 0)

-- `OSMutexAttributes`
pub record MutexAttributes : Type 0 where
  pub sig : ℕ
  pub type : ℕ

unfoldable pub pthread_mutexattr_init : MutexAttributes → MutexAttributes × ℕ
pthread_mutexattr_init attr = (record { sig = 0; type = mutex_normal }, 0)

unfoldable pub pthread_mutexattr_settype : MutexAttributes → ℕ → MutexAttributes × ℕ
pthread_mutexattr_settype attr rs = (record attr { type = rs }, 0)

unfoldable pub pthread_mutexattr_setpshared : MutexAttributes → ℕ → MutexAttributes × ℕ
pthread_mutexattr_setpshared attr rs = (attr, 0)

unfoldable pub pthread_mutexattr_destroy : MutexAttributes → MutexAttributes × ℕ
pthread_mutexattr_destroy attr = (attr, 0)
