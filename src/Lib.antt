-- ===== src/Lib.antt =====
-- yaup: a small Unix, its file system, its shell and its programs, in C.
--
-- The parts, and the file that models each:
--   kernel/fs/block.c          Kernel/Block: the cache of disk blocks (bget, bread, bwrite, block,
--                              brelease, balloc, bfree)
--   kernel/fs/bitmap.c         Kernel/Bitmap (get_free_pos, set_pos, unset_pos)
--   kernel/fs/inode.c          Kernel/Inodes: the cache of inodes (iget, iput, ilock, irelease, ialloc,
--                              ifree)
--   kernel/fs/namei.c          Kernel/Namei: from a path to an inode (namei, dir_lookup)
--   kernel/fs/open_close.c     Kernel/Files: open files and descriptors (sys_open, sys_close, fget, fdget)
--   kernel/fs/read_write.c     Kernel/ReadWrite (sys_read, sys_write, sys_seek, baddr, the permissions)
--   kernel/fs/stat.c, superblock.c  Kernel/Status (sys_stat, sys_fstat, sbread)
--   kernel/mem/string.c        Kernel/Memory (memset)
--   kernel/include             Kernel/Host: the structures, the kernel's state, and what is outside of
--                              the repository
--   include/errno.h            Errno
--   include/shell.h            Shell/Line (read_line, split_line), Shell/Builtins (select_cmd),
--                              Shell/Main (exec_cmd)
--   busybox/shell/sh.h, env.c  Shell/State, Shell/Env (env_list, env_set, env_unset, yash_env)
--   busybox/shell/echo.c       Shell/Echo
--   busybox/shell/time.c, cd.c, exit.c, busybox/pwd.c, who.c, sleep.c  Shell/Builtins
--   busybox/tee.c              Shell/Tee
--   busybox/shell/sh.c         Shell/Main (the start of main, init_env, find_cmd, one round)
--   include/sys/stat.h         Tools/Program (the file type macros)
--   busybox/cat.c, head.c and tail.c, od.c, tr.c, grep.c, wc.c, sum.c, cmp.c, cksum.c
--                              Tools/Cat, Head, Od, Tr, Grep, Wc, Sum, Cmp, Cksum
--   busybox/cp.c, mv.c and ln.c, rm.c and mkdir.c, chown.c, chgrp.c, chmod.c
--                              Tools/Cp, Mv, Rm, Chown, Chgrp, Chmod
--   busybox/login.c, login.h   Tools/Login
--   busybox/nl.c, find.c, ls.c, du.c, free.c
--                              Tools/Nl, Find, Ls, Du, Free
--
-- How they interact. A system call of Kernel/ReadWrite, Kernel/Files or Kernel/Status goes from a
-- descriptor of the current process to an open file, from there to a cached inode, and from the inode
-- to blocks, which Kernel/Block holds. The state is one record, Kernel, with a list for each table of
-- fs.h and a pointer into a table as an index; a function of the kernel is a function from the state
-- to a result, which may be a panic or a fault (Base/Machine). A round of the shell reads a line
-- (Shell/Line), finds the command (Shell/Builtins), and runs it on the state of Shell/State; rounds make
-- a session (Shell/Main/Session). A program of busybox (Tools) is a function of the system, its streams
-- and errno that returns, leaves with a status, is undefined or is still running (Tools/Program); the
-- loop over the files of the arguments is in Tools/Program/Args.
--
-- Integers are natural numbers with the wrap-around of an unsigned type written out. Undefined behaviour
-- is the result fault: a null pointer, an index out of bounds, a read past a string's object, a counter
-- of type int that overflows. A variable that is read before it is set is an argument of the model.
--
-- Loops that the source does not bound run on fuel: memset and get_free_pos, which end for no fuel,
-- the paths of namei, the rounds of crc32 (two are enough, as the second one ends or faults) and
-- split_line (the length of the line and one more are enough), the searches of login (a round for
-- each byte of the file and one more), get_gid (two rounds more than the file has bytes), the lines
-- of grep (which do not end for a file that starts with a newline), the rounds of chown (two for
-- each file and one more) and of login, the lines of nl and free (two rounds more than the file has
-- bytes, of which each but the last takes one), and the depth of the directories that cp, rm, chown,
-- chgrp, chmod, find and du walk. The others are structural.
--
-- Outside of the repository, and so parameters: the disk, the locks and the layout of C structures
-- (Kernel/Host, with hypotheses in IsLawful: a block reads back as it was written, a write leaves
-- the other blocks alone, and blocks and inodes have their sizes), and processes, directories,
-- memory and time for the shell (System in Shell/State), and files, directories and their owners for
-- the programs (Os in Tools/Os, with hypotheses in IsLawful: a file that is opened for writing is
-- empty, grows by what is written, and the others are left alone), and the numbers of type double
-- for free (Doubles in Tools/Free). The shell's allocator and the system calls are free to fail; the
-- programs' allocations are granted.
--
-- Not modelled: messages to stderr; a child process that goes on after a failed exec; ps, basename
-- and useradd, which call functions that have no code; the scheduler and the network, whose files
-- are empty.
pub mod Base
pub mod Errno
pub mod Kernel
pub mod Shell
pub mod Tools
