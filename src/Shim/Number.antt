-- ===== src/Shim/Number.antt =====
-- crates/core/src/shim/number.rs: the numbers of the system calls that the shim names.
use coracle.Prelude.{ℕ}

abbrev pub getcwd : ℕ
getcwd = 17

abbrev pub fcntl : ℕ
fcntl = 25

abbrev pub ioctl : ℕ
ioctl = 29

abbrev pub faccessat : ℕ
faccessat = 48

abbrev pub openat : ℕ
openat = 56

abbrev pub close : ℕ
close = 57

abbrev pub lseek : ℕ
lseek = 62

abbrev pub read : ℕ
read = 63

abbrev pub write : ℕ
write = 64

abbrev pub readv : ℕ
readv = 65

abbrev pub writev : ℕ
writev = 66

abbrev pub pread64 : ℕ
pread64 = 67

abbrev pub readlinkat : ℕ
readlinkat = 78

abbrev pub newfstatat : ℕ
newfstatat = 79

abbrev pub fstat : ℕ
fstat = 80

abbrev pub exit : ℕ
exit = 93

abbrev pub exit_group : ℕ
exit_group = 94

abbrev pub set_tid_address : ℕ
set_tid_address = 96

abbrev pub futex : ℕ
futex = 98

abbrev pub set_robust_list : ℕ
set_robust_list = 99

abbrev pub clock_gettime : ℕ
clock_gettime = 113

abbrev pub sched_getaffinity : ℕ
sched_getaffinity = 123

abbrev pub tgkill : ℕ
tgkill = 131

abbrev pub rt_sigaction : ℕ
rt_sigaction = 134

abbrev pub rt_sigprocmask : ℕ
rt_sigprocmask = 135

abbrev pub uname : ℕ
uname = 160

abbrev pub getpid : ℕ
getpid = 172

abbrev pub getppid : ℕ
getppid = 173

abbrev pub getuid : ℕ
getuid = 174

abbrev pub geteuid : ℕ
geteuid = 175

abbrev pub getgid : ℕ
getgid = 176

abbrev pub getegid : ℕ
getegid = 177

abbrev pub gettid : ℕ
gettid = 178

abbrev pub brk : ℕ
brk = 214

abbrev pub munmap : ℕ
munmap = 215

abbrev pub clone : ℕ
clone = 220

abbrev pub execve : ℕ
execve = 221

abbrev pub mmap : ℕ
mmap = 222

abbrev pub mprotect : ℕ
mprotect = 226

abbrev pub madvise : ℕ
madvise = 233

abbrev pub wait4 : ℕ
wait4 = 260

abbrev pub prlimit64 : ℕ
prlimit64 = 261

abbrev pub getrandom : ℕ
getrandom = 278

abbrev pub rseq : ℕ
rseq = 293
