-- ===== src/Filesystem.antt =====
-- source/filesystem.cpp with the codes of include/coreinit/filesystem.h: handles for files and
-- directories, path prefixes mapped to the host's, and a directory and an error for each client.
-- Paths are lists of characters, a pointer is its address with 0 for null. The C library is an argument,
-- a `Host` over a world of its own. Each call is one step; not all of a call is under the lock
-- (`FSReadFile`, `FSRemove`, `FSRename`, `FSGetLastError` and `record` take none), so the models are of calls
-- that do not overlap. The tables hold fewer than 2 ^ 32 slots.
pub mod Files
pub mod Dirs
pub mod Async
pub mod Slots
pub mod Streams
pub mod Handles
pub mod Paths
pub mod Calls
pub mod Kept
pub mod FileCalls
pub mod PathCalls
pub mod Runs
pub mod Errors
mod Tests
use coreinit_nx.Base.{
  ℕ, suc, zero, ◌+◌, ◌-◌, ◌%◌, ◌^◌, Bool, true, false, not, ◌||◌, ◌&&◌, List, [], ◌∷◌, ◌++◌, Option,
  none, some, ltb, ◌==◌, if◌then◌else◌, length, get_elem?, set,
}
use coreinit_nx.Base.Int.{ℤ, pos, negsuc, eqb_ℤ}

abbrev pub Str : Type 0
Str = List ℕ

-- What the C library does with streams, directories and paths. A stream that could not be opened is 0,
-- a call that returns 0 for success answers `true`.
pub record Host (W : Type 0) : Type 0 where
  pub fopen : Str → Str → W → ℕ × W
  pub fclose : ℕ → W → W
  pub is_dir : Str → W → Bool
  pub fread : ℕ → ℕ → ℕ → W → List ℕ × ℕ × W
  pub fwrite : List ℕ → ℕ → ℕ → ℕ → W → ℕ × W
  pub fseek_set : ℕ → ℕ → W → Bool × W
  pub fseek_end : ℕ → W → Bool × W
  pub ftell : ℕ → W → ℤ
  pub opendir : Str → W → ℕ × W
  pub readdir : ℕ → W → Option Str × W
  pub closedir : ℕ → W → W
  pub mkdir : Str → W → Bool × W
  pub remove : Str → W → Bool × W
  pub rmdir : Str → W → Bool × W
  pub rename : Str → Str → W → Bool × W

-- `FSStatus`, the codes that the calls answer or translate. A read answers a count instead.
abbrev pub status_ok : ℤ
status_ok = pos 0

abbrev pub status_end : ℤ
status_end = negsuc 1

abbrev pub status_exists : ℤ
status_exists = negsuc 4

abbrev pub status_not_found : ℤ
status_not_found = negsuc 5

abbrev pub status_not_file : ℤ
status_not_file = negsuc 6

abbrev pub status_access_error : ℤ
status_access_error = negsuc 8

abbrev pub status_permission_error : ℤ
status_permission_error = negsuc 9

abbrev pub status_storage_full : ℤ
status_storage_full = negsuc 11

abbrev pub status_fatal_error : ℤ
status_fatal_error = negsuc 1023

-- `FSError`, those that a status translates to and that of a client that is null.
pub data FsError : Type 0 where
  error_ok error_end_of_file error_already_exists error_not_found error_access_error : FsError
  error_permission_error error_storage_full error_invalid_clienthandle error_media_error : FsError

pub status_to_error : ℤ → FsError
status_to_error s =
    if eqb_ℤ s status_ok
    then error_ok
    else if eqb_ℤ s status_end
    then error_end_of_file
    else if eqb_ℤ s status_not_found
    then error_not_found
    else if eqb_ℤ s status_exists
    then error_already_exists
    else if eqb_ℤ s status_permission_error
    then error_permission_error
    else if eqb_ℤ s status_access_error
    then error_access_error
    else if eqb_ℤ s status_storage_full
    then error_storage_full
    else error_media_error

-- `HostFile`, and `HostDir` in the same way.
pub record Slot : Type 0 where
  pub stream : ℕ
  pub used : Bool

pub record Mapping : Type 0 where
  pub wiiu : Str
  pub host : Str

pub record HostClient : Type 0 where
  pub cwd : Str
  pub last_error : FsError

pub record Fs (W : Type 0) : Type 0 where
  pub world : W
  pub files : List Slot
  pub clients : ℕ
  pub init : Bool
  pub mappings : List Mapping
  pub client_state : List (ℕ × HostClient)
  pub dirs : List Slot

-- What a call answers, what it writes for the caller and the state after it.
pub record Result (W A : Type 0) : Type 0 where
  pub status : ℤ
  pub out : A
  pub after : Fs W

-- `fileFor` and `dirFor`.
abbrev pub used_slot : Option Slot → Option Slot
used_slot none = none
used_slot (some s) = if s.used then some s else none

pub slot_for : List Slot → ℕ → Option Slot
slot_for slots h =
    if h == 0 || ltb (length slots) h then none else used_slot (get_elem? slots (h - 1))

-- The search for a slot that is free and the place of a new stream: the slots and the handle.
abbrev pub find_unused : List Slot → ℕ → ℕ
find_unused [] i = 0
find_unused (s ∷ slots) i = if s.used then find_unused slots (i + 1) else i + 1

unfoldable pub open_slot : List Slot → ℕ → List Slot × ℕ
open_slot slots stream =
    let slot = find_unused slots 0 in
    if slot == 0
    then (slots ++ (record { stream = stream; used = true } ∷ []), length slots + 1)
    else (set slots (slot - 1) (record { stream = stream; used = true }), slot)

-- The slot of a handle, closed.
pub close_slot : List Slot → ℕ → List Slot
close_slot slots h = set slots (h - 1) (record { stream = 0; used = false })

-- `g_clientState.find` and `g_clientState[client] = …`.
abbrev pub find_client : List (ℕ × HostClient) → ℕ → Option HostClient
find_client [] client = none
find_client ((c, s) ∷ rest) client = if c == client then some s else find_client rest client

abbrev pub put_client : List (ℕ × HostClient) → ℕ → HostClient → List (ℕ × HostClient)
put_client [] client s = (client, s) ∷ []
put_client ((c, t) ∷ rest) client s =
    if c == client then (c, s) ∷ rest else (c, t) ∷ put_client rest client s

abbrev pub or_new : Option HostClient → HostClient
or_new none = record { cwd = []; last_error = error_ok }
or_new (some s) = s

-- `g_clientState[client]`, as it is read.
unfoldable pub client_of : List (ℕ × HostClient) → ℕ → HostClient
client_of states client = or_new (find_client states client)

-- `record`.
unfoldable pub record_status : {W : Type 0} → ℕ → ℤ → Fs W → Fs W
record_status client s fs = if client == 0 then fs else record fs {
  client_state =
      put_client fs.client_state client
        (record (client_of fs.client_state client) { last_error = status_to_error s });
}

-- `translate`: a relative path stands behind the directory of its client.
abbrev pub is_relative : Str → Bool
is_relative [] = false
is_relative (c ∷ p) = not (c == 47)

abbrev pub ends_slash : Str → Bool
ends_slash [] = false
ends_slash (c ∷ []) = c == 47
ends_slash (c ∷ d ∷ p) = ends_slash (d ∷ p)

abbrev pub behind : Str → Str → Str
behind cwd p = (if ends_slash cwd then cwd else cwd ++ (47 ∷ [])) ++ p

abbrev pub at_client : Option HostClient → Str → Str
at_client none p = p
at_client (some s) p = elim s.cwd [ [] ↦ p | (c ∷ cwd) ↦ behind (c ∷ cwd) p ]

abbrev pub strip_prefix : Str → Str → Option Str
strip_prefix [] p = some p
strip_prefix (a ∷ as') [] = none
strip_prefix (a ∷ as') (b ∷ bs) = if a == b then strip_prefix as' bs else none

abbrev pub map_prefix : List Mapping → Str → Str
map_prefix [] p = p
map_prefix (m ∷ ms) p = elim (strip_prefix m.wiiu p) [
  | some rest ↦ m.host ++ rest
  | none ↦ map_prefix ms p
]

unfoldable pub translate : {W : Type 0} → ℕ → Option Str → Fs W → Str
translate client none fs = []
translate client (some p) fs =
    map_prefix fs.mappings
      (if is_relative p then at_client (find_client fs.client_state client) p else p)

-- `coreinitNxAddVolumeMapping` and `coreinitNxClearVolumeMappings`.
unfoldable pub add_volume_mapping : {W : Type 0} → Option Str → Option Str → Fs W → Fs W
add_volume_mapping (some wiiu) (some host) fs = record fs {
  mappings = fs.mappings ++ (record { wiiu = wiiu; host = host } ∷ []);
}
add_volume_mapping _ _ fs = fs

pub clear_volume_mappings : {W : Type 0} → Fs W → Fs W
clear_volume_mappings fs = record fs { mappings = [] }

pub fs_init : {W : Type 0} → Fs W → Fs W
fs_init fs = record fs { init = true }

-- `FSAddClient`, `FSDelClient` and `FSGetClientNum`.
unfoldable pub fs_add_client : {W : Type 0} → ℕ → Fs W → ℤ × Fs W
fs_add_client client fs =
    if client == 0
    then (status_fatal_error, fs)
    else (status_ok, record fs { clients = (fs.clients + 1) % 2 ^ 32 })

unfoldable pub fs_del_client : {W : Type 0} → ℕ → Fs W → ℤ × Fs W
fs_del_client client fs =
    if client == 0
    then (status_fatal_error, fs)
    else (status_ok, record fs { clients = fs.clients - 1 })

pub fs_get_client_num : {W : Type 0} → Fs W → ℕ
fs_get_client_num fs = fs.clients

unfoldable pub fs_get_last_error : {W : Type 0} → ℕ → Fs W → FsError
fs_get_last_error client fs =
    if client == 0
    then error_invalid_clienthandle
    else elim (find_client fs.client_state client) [ none ↦ error_ok | some s ↦ s.last_error ]

-- `FSChangeDir` and `FSGetCwd`, with what fits in the buffer.
unfoldable pub fs_change_dir : {W : Type 0} → ℕ → Option Str → Fs W → ℤ × Fs W
fs_change_dir client none fs = (status_fatal_error, fs)
fs_change_dir client (some p) fs = if client == 0 then (status_fatal_error, fs) else (
  status_ok,
  record fs {
    client_state =
        put_client fs.client_state client (record (client_of fs.client_state client) { cwd = p });
  },
)
