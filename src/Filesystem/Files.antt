-- ===== src/Filesystem/Files.antt =====
-- source/filesystem.cpp: the calls on files. The buffer, the path, the mode and the place for an answer
-- may be null; a length or a position that is written for the caller keeps 32 bits.
use coreinit_nx.Base.{
  ℕ, Bool, true, false, not, ◌||◌, ◌&&◌, List, [], ◌∷◌, Option, none, some, ◌==◌, if◌then◌else◌,
}
use coreinit_nx.Base.Int.{ℤ, pos, pos_part, ltb_ℤ, to_word, to_i32}
use coreinit_nx.Filesystem.{
  Str, Host, Fs, Slot, Result, status_ok, status_not_found, status_not_file, status_fatal_error,
  slot_for, open_slot, close_slot, record_status, translate,
}

abbrev pub refuse : {W A : Type 0} → A → Fs W → Result W A
refuse a fs = record { status = status_fatal_error; out = a; after = fs }

-- `FSStat`: the members that are not zeroed.
pub record FsStat : Type 0 where
  pub size : ℕ
  pub alloc_size : ℕ

module _ {W : Type 0} (host : Host W) where
  abbrev pub close_all : (ℕ → W → W) → List Slot → W → W
  close_all close [] w = w
  close_all close (s ∷ slots) w =
      close_all close slots (if s.used && not (s.stream == 0) then close s.stream w else w)

  -- `FSShutdown`.
  unfoldable pub fs_shutdown : Fs W → Fs W
  fs_shutdown fs = record fs {
    world = close_all host.closedir fs.dirs (close_all host.fclose fs.files fs.world);
    files = [];
    clients = 0;
    init = false;
    client_state = [];
    dirs = [];
  }

  -- What follows `fopen`, whose stream and world are given.
  abbrev pub open_failed : ℕ → Str → Fs W → W → Result W (Option ℕ)
  open_failed client path fs w =
      let why = if host.is_dir path w then status_not_file else status_not_found in
      record {
        status = why;
        out = none;
        after = record_status client why (record fs { world = w });
      }

  abbrev pub open_done : ℕ → Fs W → ℕ → W → Result W (Option ℕ)
  open_done client fs stream w =
      let (slots, slot) = open_slot fs.files stream in
      record {
        status = status_ok;
        out = some slot;
        after = record_status client status_ok (record fs { world = w; files = slots });
      }

  abbrev pub file_opened : ℕ → Str → Fs W → ℕ × W → Result W (Option ℕ)
  file_opened client path fs (stream, w) =
      if stream == 0 then open_failed client path fs w else open_done client fs stream w

  -- `FSOpenFile`; the handle that it writes, if it does.
  unfoldable pub fs_open_file : ℕ → Option Str → Option Str → Bool → Fs W → Result W (Option ℕ)
  fs_open_file client (some p) (some mode) true fs =
      let path = translate client (some p) fs in
      file_opened client path fs (host.fopen path mode fs.world)
  fs_open_file client _ _ _ fs = refuse none fs

  abbrev pub file_closed : ℕ → Fs W → Option Slot → Result W Unit
  file_closed h fs none = refuse tt fs
  file_closed h fs (some f) = record {
    status = status_ok;
    out = tt;
    after = record fs {
      world = if f.stream == 0 then fs.world else host.fclose f.stream fs.world;
      files = close_slot fs.files h;
    };
  }

  unfoldable pub fs_close_file : ℕ → Fs W → Result W Unit
  fs_close_file h fs = file_closed h fs (slot_for fs.files h)

  -- `FSReadFile`: the bytes that it writes into the buffer.
  unfoldable pub fs_read_file : Bool → ℕ → ℕ → ℕ → Fs W → Result W (List ℕ)
  fs_read_file buffer size count h fs =
      if not buffer || size == 0 then refuse [] fs else elim (slot_for fs.files h) [
        | none ↦ refuse [] fs
        | some f ↦
            let (bytes, n, w) = host.fread f.stream size count fs.world in
            record { status = to_i32 (pos n); out = bytes; after = record fs { world = w } }
      ]

  unfoldable pub fs_read_file_with_pos : Bool → ℕ → ℕ → ℕ → ℕ → Fs W → Result W (List ℕ)
  fs_read_file_with_pos buffer size count position h fs = elim (slot_for fs.files h) [
    | none ↦ refuse [] fs
    | some f ↦
        let (ok, w) = host.fseek_set f.stream position fs.world in
        if ok
        then fs_read_file buffer size count h (record fs { world = w })
        else refuse [] (record fs { world = w })
  ]

  unfoldable pub fs_get_pos_file : Bool → ℕ → Fs W → Result W (Option ℕ)
  fs_get_pos_file pointer h fs =
      if not pointer then refuse none fs else elim (slot_for fs.files h) [
        | none ↦ refuse none fs
        | some f ↦
            let p = host.ftell f.stream fs.world in
            if ltb_ℤ p (pos 0)
            then refuse none fs
            else record { status = status_ok; out = some (to_word 32 p); after = fs }
      ]

  unfoldable pub fs_set_pos_file : ℕ → ℕ → Fs W → Result W Unit
  fs_set_pos_file position h fs = elim (slot_for fs.files h) [
    | none ↦ refuse tt fs
    | some f ↦
        let (ok, w) = host.fseek_set f.stream position fs.world in
        record {
          status = if ok then status_ok else status_fatal_error;
          out = tt;
          after = record fs { world = w };
        }
  ]

  -- The length of a stream: to its end and back to where it was.
  abbrev pub measured : Fs W → ℤ → W → Result W (Option FsStat)
  measured fs end back =
      if ltb_ℤ end (pos 0) then refuse none (record fs { world = back }) else record {
        status = status_ok;
        out = some (record { size = to_word 32 end; alloc_size = to_word 32 end });
        after = record fs { world = back };
      }

  abbrev pub measure : ℕ → ℤ → Fs W → Bool × W → Result W (Option FsStat)
  measure stream here fs (false, w) = refuse none (record fs { world = w })
  measure stream here fs (true, w) =
      measured fs (host.ftell stream w) (host.fseek_set stream (pos_part here) w).1

  unfoldable pub fs_get_stat_file : Bool → ℕ → Fs W → Result W (Option FsStat)
  fs_get_stat_file pointer h fs =
      if not pointer then refuse none fs else elim (slot_for fs.files h) [
        | none ↦ refuse none fs
        | some f ↦
            let here = host.ftell f.stream fs.world in
            if ltb_ℤ here (pos 0)
            then refuse none fs
            else measure f.stream here fs (host.fseek_end f.stream fs.world)
      ]

  -- `FSWriteFile`, with the bytes of the buffer.
  unfoldable pub fs_write_file : Option (List ℕ) → ℕ → ℕ → ℕ → Fs W → Result W Unit
  fs_write_file none size count h fs = refuse tt fs
  fs_write_file (some bytes) size count h fs =
      if size == 0 then refuse tt fs else elim (slot_for fs.files h) [
        | none ↦ refuse tt fs
        | some f ↦
            let (n, w) = host.fwrite bytes size count f.stream fs.world in
            record { status = to_i32 (pos n); out = tt; after = record fs { world = w } }
      ]
