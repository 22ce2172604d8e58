-- ===== src/Filesystem/Async.antt =====
-- source/filesystem.cpp: the asynchronous calls, which do the work at once and call back.
use coreinit_nx.Base.{ℕ, ◌%◌, ◌^◌, Bool, List, Option, none, some, if◌then◌else◌}
use coreinit_nx.Base.Int.{ℤ}
use coreinit_nx.Filesystem.{Str, Host, Fs, Result, slot_for}
use coreinit_nx.Filesystem.Files.{
  FsStat, refuse, fs_open_file, fs_close_file, fs_read_file_with_pos, fs_get_stat_file,
  fs_write_file,
}
use coreinit_nx.Filesystem.Dirs.{fs_open_dir, fs_read_dir, fs_close_dir}

-- `FSAsyncData`: is there a callback, and its argument.
pub record AsyncData : Type 0 where
  pub callback : Bool
  pub param : ℕ

-- A call of the callback.
pub record Callback : Type 0 where
  pub client : ℕ
  pub block : ℕ
  pub result : ℤ
  pub param : ℕ

-- `completeAsync`: the call that it makes, if any, after the operation.
pub complete_async : ℕ → ℕ → ℤ → Option AsyncData → Option Callback
complete_async client block result none = none
complete_async client block result (some info) =
    if info.callback
    then some
        (record { client = client; block = block; result = result; param = info.param % 2 ^ 32 })
    else none

-- An operation and the callback that follows it.
abbrev pub asynchronous :
    {W A : Type 0} → ℕ → ℕ → Option AsyncData → Result W A → Result W A × Option Callback
asynchronous client block info r = (r, complete_async client block r.status info)

module _ {W : Type 0} (host : Host W) (client block : ℕ) (info : Option AsyncData) where
  pub fs_open_file_async :
      Option Str → Option Str → Bool → Fs W → Result W (Option ℕ) × Option Callback
  fs_open_file_async p mode pointer fs =
      asynchronous client block info (fs_open_file host client p mode pointer fs)

  pub fs_close_file_async : ℕ → Fs W → Result W Unit × Option Callback
  fs_close_file_async h fs = asynchronous client block info (fs_close_file host h fs)

  pub fs_read_file_with_pos_async :
      Bool → ℕ → ℕ → ℕ → ℕ → Fs W → Result W (List ℕ) × Option Callback
  fs_read_file_with_pos_async buffer size count position h fs =
      asynchronous client block info (fs_read_file_with_pos host buffer size count position h fs)

  -- `FSWriteFileWithPosAsync`, which has no synchronous form.
  pub fs_write_file_with_pos_async :
      Option (List ℕ) → ℕ → ℕ → ℕ → ℕ → Fs W → Result W Unit × Option Callback
  fs_write_file_with_pos_async bytes size count position h fs = elim (slot_for fs.files h) [
    | none ↦ asynchronous client block info (refuse tt fs)
    | some f ↦
        let (ok, w) = host.fseek_set f.stream position fs.world in
        if ok
        then asynchronous client block info
            (fs_write_file host bytes size count h (record fs { world = w }))
        else asynchronous client block info (refuse tt (record fs { world = w }))
  ]

  pub fs_get_stat_file_async : Bool → ℕ → Fs W → Result W (Option FsStat) × Option Callback
  fs_get_stat_file_async pointer h fs =
      asynchronous client block info (fs_get_stat_file host pointer h fs)

  pub fs_open_dir_async : Option Str → Bool → Fs W → Result W (Option ℕ) × Option Callback
  fs_open_dir_async p pointer fs =
      asynchronous client block info (fs_open_dir host client p pointer fs)

  pub fs_read_dir_async : Bool → ℕ → Fs W → Result W (Option Str) × Option Callback
  fs_read_dir_async pointer h fs = asynchronous client block info (fs_read_dir host pointer h fs)

  pub fs_close_dir_async : ℕ → Fs W → Result W Unit × Option Callback
  fs_close_dir_async h fs = asynchronous client block info (fs_close_dir host h fs)
