-- ===== src/Syscalls.antt =====
-- syscalls_x86_64.py: the names of the x86_64 syscalls by number. The numbers come in runs without gaps.
pub mod Injective
pub mod Inverse
use fuddy_duddy.Prelude.{ℕ, suc, List, [], ◌∷◌, ◌++◌, list_eq}
use fuddy_duddy.Int.{ℤ, pos}
use fuddy_duddy.Text.{Str, codes}
use fuddy_duddy.Dict.{Dict, insert}
use Prim.Native.String.{String}

-- Names for the numbers from `n` on.
unfoldable pub numbered : ℕ → List String → Dict ℤ Str
numbered n [] = []
numbered n (s ∷ ss) = (pos n, codes s) ∷ numbered (suc n) ss

-- The names from 0 on.
abbrev pub first_names : List String
first_names =
    "read" ∷ "write" ∷ "open" ∷ "close" ∷ "stat" ∷ "fstat" ∷ "lstat" ∷ "poll" ∷ "lseek" ∷ "mmap"
    ∷ "mprotect" ∷ "munmap" ∷ "brk" ∷ "rt_sigaction" ∷ "rt_sigprocmask" ∷ "rt_sigreturn" ∷ "ioctl"
    ∷ "pread64" ∷ "pwrite64" ∷ "readv" ∷ "writev" ∷ "access" ∷ "pipe" ∷ "select" ∷ "sched_yield"
    ∷ "mremap" ∷ "msync" ∷ "mincore" ∷ "madvise" ∷ "shmget" ∷ "shmat" ∷ "shmctl" ∷ "dup" ∷ "dup2"
    ∷ "pause" ∷ "nanosleep" ∷ "getitimer" ∷ "alarm" ∷ "setitimer" ∷ "getpid" ∷ "sendfile" ∷ "socket"
    ∷ "connect" ∷ "accept" ∷ "sendto" ∷ "recvfrom" ∷ "sendmsg" ∷ "recvmsg" ∷ "shutdown" ∷ "bind"
    ∷ "listen" ∷ "getsockname" ∷ "getpeername" ∷ "socketpair" ∷ "setsockopt" ∷ "getsockopt"
    ∷ "clone" ∷ "fork" ∷ "vfork" ∷ "execve" ∷ "exit" ∷ "wait4" ∷ "kill" ∷ "uname" ∷ "semget"
    ∷ "semop" ∷ "semctl" ∷ "shmdt" ∷ "msgget" ∷ "msgsnd" ∷ "msgrcv" ∷ "msgctl" ∷ "fcntl" ∷ "flock"
    ∷ "fsync" ∷ "fdatasync" ∷ "truncate" ∷ "ftruncate" ∷ "getdents" ∷ "getcwd" ∷ "chdir" ∷ "fchdir"
    ∷ "rename" ∷ "mkdir" ∷ "rmdir" ∷ "creat" ∷ "link" ∷ "unlink" ∷ "symlink" ∷ "readlink" ∷ "chmod"
    ∷ "fchmod" ∷ "chown" ∷ "fchown" ∷ "lchown" ∷ "umask" ∷ "gettimeofday" ∷ "getrlimit"
    ∷ "getrusage" ∷ "sysinfo" ∷ "times" ∷ "ptrace" ∷ "getuid" ∷ "syslog" ∷ "getgid" ∷ "setuid"
    ∷ "setgid" ∷ "geteuid" ∷ "getegid" ∷ "setpgid" ∷ "getppid" ∷ "getpgrp" ∷ "setsid" ∷ "setreuid"
    ∷ "setregid" ∷ "getgroups" ∷ "setgroups" ∷ "setresuid" ∷ "getresuid" ∷ "setresgid" ∷ "getresgid"
    ∷ "getpgid" ∷ "setfsuid" ∷ "setfsgid" ∷ "getsid" ∷ "capget" ∷ "capset" ∷ "rt_sigpending"
    ∷ "rt_sigtimedwait" ∷ "rt_sigqueueinfo" ∷ "rt_sigsuspend" ∷ "sigaltstack" ∷ "utime" ∷ "mknod"
    ∷ "uselib" ∷ "personality" ∷ "ustat" ∷ "statfs" ∷ "fstatfs" ∷ "sysfs" ∷ "getpriority"
    ∷ "setpriority" ∷ "sched_setparam" ∷ "sched_getparam" ∷ "sched_setscheduler"
    ∷ "sched_getscheduler" ∷ "sched_get_priority_max" ∷ "sched_get_priority_min"
    ∷ "sched_rr_get_interval" ∷ "mlock" ∷ []

-- The names from 150 on.
abbrev pub middle_names : List String
middle_names =
    "munlock" ∷ "mlockall" ∷ "munlockall" ∷ "vhangup" ∷ "modify_ldt" ∷ "pivot_root" ∷ "_sysctl"
    ∷ "prctl" ∷ "arch_prctl" ∷ "adjtimex" ∷ "setrlimit" ∷ "chroot" ∷ "sync" ∷ "acct"
    ∷ "settimeofday" ∷ "mount" ∷ "umount2" ∷ "swapon" ∷ "swapoff" ∷ "reboot" ∷ "sethostname"
    ∷ "setdomainname" ∷ "iopl" ∷ "ioperm" ∷ "create_module" ∷ "init_module" ∷ "delete_module"
    ∷ "get_kernel_syms" ∷ "query_module" ∷ "quotactl" ∷ "nfsservctl" ∷ "getpmsg" ∷ "putpmsg"
    ∷ "afs_syscall" ∷ "tuxcall" ∷ "security" ∷ "gettid" ∷ "readahead" ∷ "setxattr" ∷ "lsetxattr"
    ∷ "fsetxattr" ∷ "getxattr" ∷ "lgetxattr" ∷ "fgetxattr" ∷ "listxattr" ∷ "llistxattr"
    ∷ "flistxattr" ∷ "removexattr" ∷ "lremovexattr" ∷ "fremovexattr" ∷ "tkill" ∷ "time" ∷ "futex"
    ∷ "sched_setaffinity" ∷ "sched_getaffinity" ∷ "set_thread_area" ∷ "io_setup" ∷ "io_destroy"
    ∷ "io_getevents" ∷ "io_submit" ∷ "io_cancel" ∷ "get_thread_area" ∷ "lookup_dcookie"
    ∷ "epoll_create" ∷ "epoll_ctl_old" ∷ "epoll_wait_old" ∷ "remap_file_pages" ∷ "getdents64"
    ∷ "set_tid_address" ∷ "restart_syscall" ∷ "semtimedop" ∷ "fadvise64" ∷ "timer_create"
    ∷ "timer_settime" ∷ "timer_gettime" ∷ "timer_getoverrun" ∷ "timer_delete" ∷ "clock_settime"
    ∷ "clock_gettime" ∷ "clock_getres" ∷ "clock_nanosleep" ∷ "exit_group" ∷ "epoll_wait"
    ∷ "epoll_ctl" ∷ "tgkill" ∷ "utimes" ∷ "vserver" ∷ "mbind" ∷ "set_mempolicy" ∷ "get_mempolicy"
    ∷ "mq_open" ∷ "mq_unlink" ∷ "mq_timedsend" ∷ "mq_timedreceive" ∷ "mq_notify" ∷ "mq_getsetattr"
    ∷ "kexec_load" ∷ "waitid" ∷ "add_key" ∷ "request_key" ∷ "keyctl" ∷ "ioprio_set" ∷ "ioprio_get"
    ∷ "inotify_init" ∷ "inotify_add_watch" ∷ "inotify_rm_watch" ∷ "migrate_pages" ∷ "openat"
    ∷ "mkdirat" ∷ "mknodat" ∷ "fchownat" ∷ "futimesat" ∷ "newfstatat" ∷ "unlinkat" ∷ "renameat"
    ∷ "linkat" ∷ "symlinkat" ∷ "readlinkat" ∷ "fchmodat" ∷ "faccessat" ∷ "pselect6" ∷ "ppoll"
    ∷ "unshare" ∷ "set_robust_list" ∷ "get_robust_list" ∷ "splice" ∷ "tee" ∷ "sync_file_range"
    ∷ "vmsplice" ∷ "move_pages" ∷ "utimensat" ∷ "epoll_pwait" ∷ "signalfd" ∷ "timerfd_create"
    ∷ "eventfd" ∷ "fallocate" ∷ "timerfd_settime" ∷ "timerfd_gettime" ∷ "accept4" ∷ "signalfd4"
    ∷ "eventfd2" ∷ "epoll_create1" ∷ "dup3" ∷ "pipe2" ∷ "inotify_init1" ∷ "preadv" ∷ "pwritev"
    ∷ "rt_tgsigqueueinfo" ∷ "perf_event_open" ∷ "recvmmsg" ∷ []

-- The names from 300 on.
abbrev pub late_names : List String
late_names =
    "fanotify_init" ∷ "fanotify_mark" ∷ "prlimit64" ∷ "name_to_handle_at" ∷ "open_by_handle_at"
    ∷ "clock_adjtime" ∷ "syncfs" ∷ "sendmmsg" ∷ "setns" ∷ "getcpu" ∷ "process_vm_readv"
    ∷ "process_vm_writev" ∷ "kcmp" ∷ "finit_module" ∷ "sched_setattr" ∷ "sched_getattr"
    ∷ "renameat2" ∷ "seccomp" ∷ "getrandom" ∷ "memfd_create" ∷ "kexec_file_load" ∷ "bpf"
    ∷ "execveat" ∷ "userfaultfd" ∷ "membarrier" ∷ "mlock2" ∷ "copy_file_range" ∷ "preadv2"
    ∷ "pwritev2" ∷ "pkey_mprotect" ∷ "pkey_alloc" ∷ "pkey_free" ∷ "statx" ∷ "io_pgetevents" ∷ "rseq"
    ∷ "uretprobe" ∷ "uprobe" ∷ []

-- The names from 424 on.
abbrev pub recent_names : List String
recent_names =
    "pidfd_send_signal" ∷ "io_uring_setup" ∷ "io_uring_enter" ∷ "io_uring_register" ∷ "open_tree"
    ∷ "move_mount" ∷ "fsopen" ∷ "fsconfig" ∷ "fsmount" ∷ "fspick" ∷ "pidfd_open" ∷ "clone3"
    ∷ "close_range" ∷ "openat2" ∷ "pidfd_getfd" ∷ "faccessat2" ∷ "process_madvise" ∷ "epoll_pwait2"
    ∷ "mount_setattr" ∷ "quotactl_fd" ∷ "landlock_create_ruleset" ∷ "landlock_add_rule"
    ∷ "landlock_restrict_self" ∷ "memfd_secret" ∷ "process_mrelease" ∷ "futex_waitv"
    ∷ "set_mempolicy_home_node" ∷ "cachestat" ∷ "fchmodat2" ∷ "map_shadow_stack" ∷ "futex_wake"
    ∷ "futex_wait" ∷ "futex_requeue" ∷ "statmount" ∷ "listmount" ∷ "lsm_get_self_attr"
    ∷ "lsm_set_self_attr" ∷ "lsm_list_modules" ∷ "mseal" ∷ "setxattrat" ∷ "getxattrat"
    ∷ "listxattrat" ∷ "removexattrat" ∷ "open_tree_attr" ∷ "file_getattr" ∷ "file_setattr"
    ∷ "listns" ∷ "rseq_slice_yield" ∷ []

-- NAMES
unfoldable pub names : Dict ℤ Str
unfolding numbered
names =
    numbered 0 first_names
    ++ numbered 150 middle_names
    ++ numbered 300 late_names
    ++ numbered 424 recent_names

-- The writes of the entries of a dictionary, with key and value exchanged, from the left.
unfoldable pub invert : Dict ℤ Str → Dict Str ℤ → Dict Str ℤ
invert [] inverse = inverse
invert ((nr, name) ∷ d) inverse = invert d (insert name nr inverse)

-- NR
unfoldable pub numbers : Dict Str ℤ
unfolding invert names
numbers = invert names []
