-- ===== src/Tools.antt =====
-- busybox: the programs that read files. A FILE is the list of the bytes that are left, and EOF is its
-- end.
pub mod Os
pub mod Program
pub mod Cat
pub mod Od
pub mod Tr
pub mod Head
pub mod Grep
pub mod Cp
pub mod Mv
pub mod Rm
pub mod Chown
pub mod Chgrp
pub mod Login
pub mod Ls
pub mod Nl
pub mod Du
pub mod Find
pub mod Free
pub mod Wc
pub mod Sum
pub mod Cmp
pub mod Cksum
pub mod Chmod
mod Sample
mod Tests
mod MainTests
mod ListingTests
