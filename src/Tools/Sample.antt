-- ===== src/Tools/Sample.antt =====
-- A small system for the tests: every name but those that start with a "d" is a regular file.
use yaup.Base.{
  ℕ, ◌≡◌, refl, true, some, List, [], ◌∷◌, ◌++◌, get_or, if◌then◌else◌, ◌==◌, ltb, ◌&&◌, ==_refl,
  arith,
}
use yaup.Shell.Text.{text, same_text}
use yaup.Kernel.Host.{Stat}
use yaup.Tools.Os.{Os, IsLawful, FilePath, gives, fails}
use yaup.Tools.Program.{Process}
use yaup.Tools.Chown.{no_id}
use yaup.Tools.Chown.Ends.{ChangesOwner}

pub record Disk : Type 0 where
  pub text_of : FilePath → List ℕ
  pub owner_of : FilePath → ℕ

abbrev pub stat_of : Disk → FilePath → Stat
stat_of w path = record {
  st_dev = 1;
  st_ino = 2;
  st_mode = if get_or path 0 0 == 100 then 0o040755 else 0o100644;
  st_nlink = 1;
  st_uid = w.owner_of path;
  st_gid = 100;
  st_rdev = 0;
  st_size = 5;
  st_blksize = 512;
  st_blocks = 1;
  st_atim = 0;
  st_mtim = 0;
  st_ctim = 0;
}

abbrev pub with_text : Disk → FilePath → (List ℕ → List ℕ) → Disk
with_text w path f = record w {
  text_of = λ q. if same_text path q then f (w.text_of q) else w.text_of q;
}

abbrev pub os : Os
os = record {
  World = Disk;
  stat = λ w path. gives (stat_of w path);
  open_read = λ w path. gives tt;
  bytes = λ w path. w.text_of path;
  open_write = λ w path. gives (with_text w path (λ cs. []));
  append = λ w path cs. with_text w path (λ held. held ++ cs);
  entries = λ w path. fails 20;
  chdir = λ w path. w;
  chmod = λ w path mode. gives w;
  chown = λ w path owner group. gives (record w {
    owner_of = λ q. if same_text path q && ltb owner no_id then owner else w.owner_of q;
  });
  rename = λ w a b. fails 13;
  remove = λ w path. fails 13;
  link = λ w a b. fails 13;
  symlink = λ w a b. fails 13;
  mkdir = λ w path mode. fails 13;
  getenv = λ w name. some (text "80");
  getpid = λ w. 7;
  Aliases = λ w p q. same_text p q ≡ true;
}

pub same_text_refl : (p : FilePath) → same_text p p ≡ true
unfolding same_text
same_text_refl [] = refl
same_text_refl (c ∷ p) = ground (arith, ==_refl c, same_text_refl p)

pub os-IsLawful : IsLawful os
os-IsLawful = record {
  bytes-open_write = λ w p q w' same e. ground arith;
  bytes-open_write_other = λ w p q w' apart e. (ground arith, apart);
  bytes-append = λ w p cs. ground (arith, same_text_refl p);
  bytes-append_other = λ w p q cs apart. ground arith;
  aliases_refl = λ w p. same_text_refl p;
}

pub os-ChangesOwner : ChangesOwner os
os-ChangesOwner w w' path owner group proper e =
    (stat_of w' path, refl, ground (arith, same_text_refl path))

abbrev pub disk : Disk
disk = record {
  text_of = λ path. if get_or path 0 0 == 97 then text "hi\nthere\n" else text "ho\n";
  owner_of = λ path. 0;
}

abbrev pub process : Process os
process = record { world = disk; errno = 0; stdin = []; stdout = [] }
