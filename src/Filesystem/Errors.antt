-- ===== src/Filesystem/Errors.antt =====
-- The errors of source/filesystem.cpp and include/coreinit/filesystem.h: what a call answers and what
-- `FSGetLastError` answers after it.
use coreinit_nx.Base.{
  ℕ, ◌≡◌, ◌≢◌, refl, ap, ap₂, ◌∙◌, inl, inr, Bool, true, false, Option, none, some, ◌==◌,
  if◌then◌else◌, ◌||◌, ◌&&◌, Bool-cases, arith,
}
use coreinit_nx.Base.Int.{ℤ, pos, negsuc}
use coreinit_nx.Filesystem.{
  Str, Host, Fs, HostClient, Result, FsError, error_ok, error_not_found, error_media_error,
  error_invalid_clienthandle, translate, find_client, put_client, client_of, record_status,
  status_to_error, fs_get_last_error,
}
use coreinit_nx.Filesystem.Files.{fs_open_file}
use coreinit_nx.Filesystem.Dirs.{
  MountSource, MountSourceType, fs_get_mount_source, fs_mount, fs_remove, fs_rename,
}
use coreinit_nx.Filesystem.Paths.{find_client-put_client}

-- How a call can end, with the status it answers and the error it leaves behind, from the two tables of
-- include/coreinit/filesystem.h.
pub data Outcome : Type 0 where
  done missing is_directory refused : Outcome

abbrev pub outcome_status : Outcome → ℤ
outcome_status done = pos 0
outcome_status missing = negsuc 5
outcome_status is_directory = negsuc 6
outcome_status refused = negsuc 1023

abbrev pub outcome_error : Outcome → FsError
outcome_error done = error_ok
outcome_error missing = error_not_found
outcome_error is_directory = error_media_error
outcome_error refused = error_media_error

abbrev pub is_some : {A : Type 0} → Option A → Bool
is_some none = false
is_some (some _) = true

status_to_error-outcome_status :
    (o : Outcome) → status_to_error (outcome_status o) ≡ outcome_error o
unfolding status_to_error
status_to_error-outcome_status done = refl
status_to_error-outcome_status missing = refl
status_to_error-outcome_status is_directory = refl
status_to_error-outcome_status refused = refl

module _ {W : Type 0} (host : Host W) where
  last_error-record_status :
      (client : ℕ) (s : ℤ) (fs : Fs W)
      → client ≢ 0
      → fs_get_last_error client (record_status client s fs) ≡ status_to_error s
  unfolding record_status fs_get_last_error
  last_error-record_status client s fs n =
      let z : (client == 0) ≡ false = ground (arith, n) in
      let new : HostClient = record (client_of fs.client_state client) {
        last_error = status_to_error s;
      } in
      let l = put_client fs.client_state client new in
      let answer = λ (b : Bool) (o : Option HostClient).
        if◌then◌else◌ {A = FsError} b error_invalid_clienthandle
          (elim o [ none ↦ error_ok | some s ↦ s.last_error ]) in
      ap₂ answer z (
        ap
          (λ b.
            find_client
              (if◌then◌else◌ {A = Fs W} b fs (record fs { client_state = l })).client_state client)
          z
        ∙ find_client-put_client fs.client_state client new)

  -- A call that answers the status of an outcome, and after which the client is told its error.
  abbrev pub Answers : {A : Type 0} → ℕ → Result W A → Outcome → Type 0
  Answers client r o =
      (r.status ≡ outcome_status o) × (fs_get_last_error client r.after ≡ outcome_error o)

  told :
      (client : ℕ) (o : Outcome) (fs : Fs W)
      → client ≢ 0
      → fs_get_last_error client (record_status client (outcome_status o) fs) ≡ outcome_error o
  told client o fs n =
      last_error-record_status client (outcome_status o) fs n ∙ status_to_error-outcome_status o

  Answers-fs_open_file :
      (client : ℕ) (p mode : Str) (fs : Fs W)
      → client ≢ 0
      → let path = translate client (some p) fs in
        let (stream, w) = host.fopen path mode fs.world in
        Answers client
          (fs_open_file host client (some p) (some mode) true fs)
          (if stream == 0 then (if host.is_dir path w then is_directory else missing) else done)
  unfolding fs_open_file
  Answers-fs_open_file client p mode fs n =
      let path = translate client (some p) fs in
      let (stream, w) = host.fopen path mode fs.world in
      elim (Bool-cases (stream == 0)) [
        | inr e ↦ rw e (refl, told client done _ n)
        | inl e ↦ elim (Bool-cases (host.is_dir path w)) [
          | inl d ↦ rw (e, d) (refl, told client is_directory _ n)
          | inr d ↦ rw (e, d) (refl, told client missing _ n)
        ]
      ]

  Answers-fs_remove :
      (client : ℕ) (p : Str) (fs : Fs W)
      → client ≢ 0
      → let path = translate client (some p) fs in
        let (removed, w) = host.remove path fs.world in
        Answers client
          (fs_remove host client (some p) fs)
          (if removed || (host.rmdir path w).0 then done else missing)
  unfolding fs_remove
  Answers-fs_remove client p fs n =
      let path = translate client (some p) fs in
      let (removed, w) = host.remove path fs.world in
      elim (Bool-cases removed) [
        | inl e ↦ rw e (refl, told client done _ n)
        | inr e ↦ elim (Bool-cases (host.rmdir path w).0) [
          | inl d ↦ rw (e, d) (refl, told client done _ n)
          | inr d ↦ rw (e, d) (refl, told client missing _ n)
        ]
      ]

  Answers-fs_rename :
      (client : ℕ) (p q : Str) (fs : Fs W)
      → client ≢ 0
      → Answers client (fs_rename host client (some p) (some q) fs) (
          if (host.rename (translate client (some p) fs) (translate client (some q) fs) fs.world).0
          then done
          else refused)
  unfolding fs_rename
  Answers-fs_rename client p q fs n =
      elim (Bool-cases
        (host.rename (translate client (some p) fs) (translate client (some q) fs) fs.world).0) [
          | inl e ↦ rw e (refl, told client done _ n)
          | inr e ↦ rw e (refl, told client refused _ n)
        ]

  Answers-fs_mount :
      (client : ℕ) (fs : Fs W)
      → client ≢ 0
      → (source : Option MountSource) (target : Option Str)
      → Answers client
          (fs_mount client source target fs)
          (if is_some source && is_some target then done else refused)
  unfolding fs_mount
  Answers-fs_mount client fs n (some source) (some target) = (refl, told client done _ n)
  Answers-fs_mount client fs n (some source) none = (refl, told client refused _ n)
  Answers-fs_mount client fs n none target = (refl, told client refused _ n)

  Answers-fs_get_mount_source :
      (client : ℕ) (fs : Fs W)
      → client ≢ 0
      → (type : MountSourceType) (pointer : Bool)
      → Answers client
          (fs_get_mount_source client type pointer fs)
          (if pointer then done else refused)
  unfolding fs_get_mount_source
  Answers-fs_get_mount_source client fs n type true = (refl, told client done _ n)
  Answers-fs_get_mount_source client fs n type false = (refl, told client refused _ n)

  -- For a client that is not null, the status that a call answers and the error that
  -- `FSGetLastError` answers after it. `FSOpenFile` with a path, a mode and a place for the handle:
  -- if `fopen` gives no stream, not-a-file and media error for a directory, not-found and not-found
  -- for anything else. `FSRemove` with a path: not-found and not-found if neither `remove` nor `rmdir`
  -- succeeds. `FSRename` with its paths: fatal and media error if `rename` fails. `FSMount` and
  -- `FSGetMountSource`: fatal and media error if a pointer is null. In all other cases ok and ok.
  pub last_error_lem :
      (client : ℕ) (p mode q : Str) (fs : Fs W) (source : Option MountSource) (target : Option Str)
      (type : MountSourceType) (pointer : Bool)
      → client ≢ 0
      → let path = translate client (some p) fs in
        let (stream, w) = host.fopen path mode fs.world in
        let (removed, w') = host.remove path fs.world in
        let (renamed, _) = host.rename path (translate client (some q) fs) fs.world in
        Answers client
          (fs_open_file host client (some p) (some mode) true fs)
          (if stream == 0 then (if host.is_dir path w then is_directory else missing) else done)
        × Answers client
            (fs_remove host client (some p) fs)
            (if removed || (host.rmdir path w').0 then done else missing)
        × Answers client
            (fs_rename host client (some p) (some q) fs)
            (if renamed then done else refused)
        × Answers client
            (fs_mount client source target fs)
            (if is_some source && is_some target then done else refused)
        × Answers client
            (fs_get_mount_source client type pointer fs)
            (if pointer then done else refused)
  last_error_lem client p mode q fs source target type pointer n = (
    Answers-fs_open_file client p mode fs n,
    Answers-fs_remove client p fs n,
    Answers-fs_rename client p q fs n,
    Answers-fs_mount client fs n source target,
    Answers-fs_get_mount_source client fs n type pointer,
  )
