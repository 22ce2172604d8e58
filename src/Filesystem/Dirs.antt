-- ===== src/Filesystem/Dirs.antt =====
-- source/filesystem.cpp: directories, the calls on paths and mounting.
use coreinit_nx.Base.{
  ℕ, ◌-◌, Bool, true, false, not, List, [], ◌∷◌, Option, none, some, ◌==◌, if◌then◌else◌, take,
  get_or, replicate, set,
}
use coreinit_nx.Base.Int.{ℤ}
use coreinit_nx.Filesystem.{
  Str, Host, Fs, Slot, Result, status_ok, status_end, status_not_found, status_fatal_error,
  slot_for, open_slot, close_slot, client_of, put_client, record_status, translate,
  add_volume_mapping,
}
use coreinit_nx.Filesystem.Files.{refuse}

-- `FSMountSourceType`.
pub data MountSourceType : Type 0 where
  sd hfio : MountSourceType

abbrev pub type_code : MountSourceType → ℕ
type_code sd = 0
type_code hfio = 1

-- A mount source is its 0x300 bytes, as a list.
abbrev pub MountSource : Type 0
MountSource = List ℕ

-- `FSGetMountSource`: the source that it writes, whose first byte is the type.
unfoldable pub fs_get_mount_source :
    {W : Type 0} → ℕ → MountSourceType → Bool → Fs W → Result W (Option MountSource)
fs_get_mount_source client type false fs = record {
  status = status_fatal_error;
  out = none;
  after = record_status client status_fatal_error fs;
}
fs_get_mount_source client type true fs = record {
  status = status_ok;
  out = some (set (replicate 768 0) 0 (type_code type));
  after = record_status client status_ok fs;
}

-- `FSMount`: the target stands for the root of the host, whatever the source.
unfoldable pub fs_mount : {W : Type 0} → ℕ → Option MountSource → Option Str → Fs W → Result W Unit
fs_mount client (some source) (some target) fs =
    let root = if get_or source 0 0 == 1 then 47 ∷ [] else 47 ∷ [] in
    record {
      status = status_ok;
      out = tt;
      after = record_status client status_ok (add_volume_mapping (some target) (some root) fs);
    }
fs_mount client _ _ fs = record {
  status = status_fatal_error;
  out = tt;
  after = record_status client status_fatal_error fs;
}

-- `FSGetVolumeState`: always `FS_VOLUME_STATE_READY`.
pub fs_get_volume_state : ℕ → ℕ
fs_get_volume_state client = 1

-- `FSGetCwd`: the text that fits into the buffer, and the client that the lookup makes.
unfoldable pub fs_get_cwd : {W : Type 0} → ℕ → Bool → ℕ → Fs W → Result W (Option Str)
fs_get_cwd client buffer bytes fs =
    if client == 0
    then refuse none fs
    else if not buffer
    then refuse none fs
    else if bytes == 0
    then refuse none fs
    else record {
      status = status_ok;
      out = some (take (bytes - 1) (client_of fs.client_state client).cwd);
      after = record fs {
        client_state = put_client fs.client_state client (client_of fs.client_state client);
      };
    }

module _ {W : Type 0} (host : Host W) where
  -- What follows `opendir`. A success is not recorded.
  abbrev pub dir_failed : ℕ → Fs W → W → Result W (Option ℕ)
  dir_failed client fs w = record {
    status = status_not_found;
    out = none;
    after = record_status client status_not_found (record fs { world = w });
  }

  abbrev pub dir_done : Fs W → ℕ → W → Result W (Option ℕ)
  dir_done fs stream w =
      let (slots, slot) = open_slot fs.dirs stream in
      record { status = status_ok; out = some slot; after = record fs { world = w; dirs = slots } }

  abbrev pub dir_opened : ℕ → Fs W → ℕ × W → Result W (Option ℕ)
  dir_opened client fs (stream, w) =
      if stream == 0 then dir_failed client fs w else dir_done fs stream w

  unfoldable pub fs_open_dir : ℕ → Option Str → Bool → Fs W → Result W (Option ℕ)
  fs_open_dir client (some p) true fs =
      dir_opened client fs (host.opendir (translate client (some p) fs) fs.world)
  fs_open_dir client _ _ fs = refuse none fs

  -- `FSReadDir`: the name that it writes, cut to the 256 bytes of the entry.
  unfoldable pub fs_read_dir : Bool → ℕ → Fs W → Result W (Option Str)
  fs_read_dir pointer h fs = if not pointer then refuse none fs else elim (slot_for fs.dirs h) [
    | none ↦ refuse none fs
    | some d ↦
        let (e, w) = host.readdir d.stream fs.world in
        elim e [
          | none ↦ record { status = status_end; out = none; after = record fs { world = w } }
          | some name ↦ record {
            status = status_ok;
            out = some (take 255 name);
            after = record fs { world = w };
          }
        ]
  ]

  abbrev pub dir_closed : ℕ → Fs W → Option Slot → Result W Unit
  dir_closed h fs none = refuse tt fs
  dir_closed h fs (some d) = record {
    status = status_ok;
    out = tt;
    after = record fs {
      world = if d.stream == 0 then fs.world else host.closedir d.stream fs.world;
      dirs = close_slot fs.dirs h;
    };
  }

  unfoldable pub fs_close_dir : ℕ → Fs W → Result W Unit
  fs_close_dir h fs = dir_closed h fs (slot_for fs.dirs h)

  -- The end of a call that records its status.
  abbrev pub recorded : ℕ → ℤ → Fs W → Result W Unit
  recorded client s fs = record { status = s; out = tt; after = record_status client s fs }

  unfoldable pub fs_make_dir : ℕ → Option Str → Fs W → Result W Unit
  fs_make_dir client none fs = refuse tt fs
  fs_make_dir client (some p) fs =
      let (ok, w) = host.mkdir (translate client (some p) fs) fs.world in
      record {
        status = if ok then status_ok else status_fatal_error;
        out = tt;
        after = record fs { world = w };
      }

  -- `FSRemove`: a file, or else an empty directory.
  unfoldable pub fs_remove : ℕ → Option Str → Fs W → Result W Unit
  fs_remove client none fs = refuse tt fs
  fs_remove client (some p) fs =
      let path = translate client (some p) fs in
      let (removed, w) = host.remove path fs.world in
      if removed
      then recorded client status_ok (record fs { world = w })
      else (let (emptied, w') = host.rmdir path w in
          recorded client (if emptied then status_ok else status_not_found)
            (record fs { world = w' }))

  unfoldable pub fs_rename : ℕ → Option Str → Option Str → Fs W → Result W Unit
  fs_rename client (some p) (some q) fs =
      let (ok, w) =
        host.rename (translate client (some p) fs) (translate client (some q) fs) fs.world in
      recorded client (if ok then status_ok else status_fatal_error) (record fs { world = w })
  fs_rename client _ _ fs = refuse tt fs
