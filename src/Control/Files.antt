-- ===== src/Control/Files.antt =====
-- hat/control.py: what the controller demands of the files that it keeps.
use Prim.Native.Nat.{bit_and}
use highly_available_trailba.Prelude.{
  ℕ, Bool, ◌||◌, not, Option, none, some, ◌==◌, nat_eq, Result, ok, raise, value_error, os_error,
  if◌then◌else◌,
}

-- `st_dev`, `st_ino`
abbrev pub FileId : Type 0
FileId = ℕ × ℕ

-- The fields of `os.stat_result` that the program reads.
pub record Stat : Type 0 where
  pub ident : FileId
  pub is_regular : Bool
  pub is_directory : Bool
  pub uid : ℕ
  pub mode : ℕ
  pub nlink : ℕ

-- `path.lstat()` of a path that holds this, or nothing
unfoldable pub lstat : Option Stat → Result Stat
lstat none = raise (os_error "no such file")
lstat (some s) = ok s

-- `s.st_mode & 0o077`
unfoldable pub open_to_others : Stat → Bool
open_to_others s = not (bit_and s.mode 0o77 == 0)

unfoldable pub private_stat : ℕ → Stat → Result FileId
unfolding open_to_others
private_stat euid s =
    if not s.is_regular || not (s.uid == euid) || open_to_others s || not (s.nlink == 1)
    then raise (value_error "controller file must be private, owned, regular and singly linked")
    else ok s.ident

unfoldable pub private_file : ℕ → Option Stat → Result FileId
unfolding private_stat
private_file euid none = raise (os_error "no such file")
private_file euid (some s) = private_stat euid s
