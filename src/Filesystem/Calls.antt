-- ===== src/Filesystem/Calls.antt =====
-- The calls of several clients in a row.
use coreinit_nx.Base.{ℕ, Bool, List, [], ◌∷◌, Option, All}
use coreinit_nx.Filesystem.{Str, Host, Fs, fs_change_dir, fs_add_client, fs_del_client}
use coreinit_nx.Filesystem.Files.{
  fs_open_file, fs_close_file, fs_read_file, fs_read_file_with_pos, fs_get_pos_file,
  fs_set_pos_file, fs_get_stat_file, fs_write_file,
}
use coreinit_nx.Filesystem.Dirs.{
  MountSource, MountSourceType, fs_get_mount_source, fs_mount, fs_get_cwd, fs_open_dir, fs_read_dir,
  fs_close_dir, fs_make_dir, fs_remove, fs_rename,
}
use coreinit_nx.Filesystem.Streams.{HasStream}

-- A call with its arguments. Those that have a client have it first.
pub data Call : Type 0 where
  open_file : ℕ → Option Str → Option Str → Bool → Call
  close_file : ℕ → Call
  read_file : Bool → ℕ → ℕ → ℕ → Call
  read_file_with_pos : Bool → ℕ → ℕ → ℕ → ℕ → Call
  get_pos_file : Bool → ℕ → Call
  set_pos_file : ℕ → ℕ → Call
  get_stat_file : Bool → ℕ → Call
  write_file : Option (List ℕ) → ℕ → ℕ → ℕ → Call
  change_dir : ℕ → Option Str → Call
  get_cwd : ℕ → Bool → ℕ → Call
  open_dir : ℕ → Option Str → Bool → Call
  read_dir : Bool → ℕ → Call
  close_dir : ℕ → Call
  make_dir : ℕ → Option Str → Call
  remove : ℕ → Option Str → Call
  rename : ℕ → Option Str → Option Str → Call
  get_mount_source : ℕ → MountSourceType → Bool → Call
  mount : ℕ → Option MountSource → Option Str → Call
  add_client : ℕ → Call
  del_client : ℕ → Call

-- The client on whose behalf a call works, 0 where it makes no difference.
abbrev pub caller : Call → ℕ
caller (open_file client p mode pointer) = client
caller (change_dir client p) = client
caller (get_cwd client buffer bytes) = client
caller (open_dir client p pointer) = client
caller (make_dir client p) = client
caller (remove client p) = client
caller (rename client p q) = client
caller (get_mount_source client type pointer) = client
caller (mount client source target) = client
caller _ = 0

module _ {W : Type 0} (host : Host W) where
  abbrev pub step : Call → Fs W → Fs W
  step (open_file client p mode pointer) fs = (fs_open_file host client p mode pointer fs).after
  step (close_file h) fs = (fs_close_file host h fs).after
  step (read_file buffer size count h) fs = (fs_read_file host buffer size count h fs).after
  step (read_file_with_pos buffer size count position h) fs =
      (fs_read_file_with_pos host buffer size count position h fs).after
  step (get_pos_file pointer h) fs = (fs_get_pos_file host pointer h fs).after
  step (set_pos_file position h) fs = (fs_set_pos_file host position h fs).after
  step (get_stat_file pointer h) fs = (fs_get_stat_file host pointer h fs).after
  step (write_file bytes size count h) fs = (fs_write_file host bytes size count h fs).after
  step (change_dir client p) fs = (fs_change_dir client p fs).1
  step (get_cwd client buffer bytes) fs = (fs_get_cwd client buffer bytes fs).after
  step (open_dir client p pointer) fs = (fs_open_dir host client p pointer fs).after
  step (read_dir pointer h) fs = (fs_read_dir host pointer h fs).after
  step (close_dir h) fs = (fs_close_dir host h fs).after
  step (make_dir client p) fs = (fs_make_dir host client p fs).after
  step (remove client p) fs = (fs_remove host client p fs).after
  step (rename client p q) fs = (fs_rename host client p q fs).after
  step (get_mount_source client type pointer) fs =
      (fs_get_mount_source client type pointer fs).after
  step (mount client source target) fs = (fs_mount client source target fs).after
  step (add_client client) fs = (fs_add_client client fs).1
  step (del_client client) fs = (fs_del_client client fs).1

  abbrev pub run : List Call → Fs W → Fs W
  run [] fs = fs
  run (c ∷ cs) fs = run cs (step c fs)

-- Every handle that resolves has a stream: no call hands a null stream to the host.
pub record IsBacked {W : Type 0} (fs : Fs W) : Type 0 where
  pub files : All HasStream fs.files
  pub dirs : All HasStream fs.dirs
