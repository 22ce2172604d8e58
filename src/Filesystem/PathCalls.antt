-- ===== src/Filesystem/PathCalls.antt =====
-- What the calls on directories, paths and clients leave as it is.
use coreinit_nx.Base.{
  ℕ, refl, sym, subst, inl, inr, Bool, true, false, not, Option, none, some, ◌==◌, if◌then◌else◌,
  Bool-cases, arith,
}
use coreinit_nx.Base.Int.{ℤ}
use coreinit_nx.Filesystem.{
  Str, Host, Fs, HostClient, status_ok, status_fatal_error, translate, slot_for, put_client,
  client_of, record_status, fs_change_dir, add_volume_mapping, fs_add_client, fs_del_client,
}
use coreinit_nx.Filesystem.Dirs.{
  MountSource, MountSourceType, fs_get_mount_source, fs_mount, fs_get_cwd, dir_failed, dir_done,
  dir_closed, fs_open_dir, fs_read_dir, fs_close_dir, fs_make_dir, fs_remove, fs_rename,
}
use coreinit_nx.Filesystem.Streams.{All-open_slot, All-close_slot}
use coreinit_nx.Filesystem.Kept.{
  IsKept, both, each, same, after_world, world_kept, then_kept, put_kept, record_kept, dirs_kept,
  Keeps,
}

module _ {W : Type 0} (host : Host W) where
  pub open_dir_kept :
      (client : ℕ) (p : Option Str) (pointer : Bool) (fs : Fs W)
      → Keeps client fs (fs_open_dir host client p pointer fs)
  unfolding fs_open_dir
  open_dir_kept client (some p) true fs =
      let (stream, w) = host.opendir (translate client (some p) fs) fs.world in
      elim (Bool-cases (stream == 0)) [
        | inl t ↦
            subst
              (λ b.
                Keeps client fs
                  (if b then dir_failed host client fs w else dir_done host fs stream w))
              (sym t) (after_world w (record_kept client _ _))
        | inr f ↦
            subst
              (λ b.
                Keeps client fs
                  (if b then dir_failed host client fs w else dir_done host fs stream w))
              (sym f) (dirs_kept fs w _ (All-open_slot fs.dirs stream (λ e. ground (arith, f, e))))
      ]
  open_dir_kept client (some p) false fs = same
  open_dir_kept client none pointer fs = same

  pub read_dir_kept :
      (pointer : Bool) (h : ℕ) (fs : Fs W) → Keeps 0 fs (fs_read_dir host pointer h fs)
  unfolding fs_read_dir
  read_dir_kept pointer h fs = both (Keeps 0 fs) (not pointer) same (
      each (Keeps 0 fs) (slot_for fs.dirs h) same (λ d.
        each (Keeps 0 fs) (host.readdir d.stream fs.world).0 (world_kept _) (λ name. world_kept _)))

  pub close_dir_kept : (h : ℕ) (fs : Fs W) → Keeps 0 fs (fs_close_dir host h fs)
  unfolding fs_close_dir
  close_dir_kept h fs = elim (slot_for fs.dirs h) as (λ o. Keeps 0 fs (dir_closed host h fs o)) [
    | none ↦ same
    | some d ↦ dirs_kept fs _ _ (All-close_slot fs.dirs h)
  ]

  pub change_dir_kept :
      (client : ℕ) (p : Option Str) (fs : Fs W) → IsKept client fs (fs_change_dir client p fs).1
  unfolding fs_change_dir
  change_dir_kept client none fs = same
  change_dir_kept client (some p) fs =
      let s : HostClient = record (client_of fs.client_state client) { cwd = p } in
      elim (client == 0)
        as (λ b.
          IsKept client fs
            (if◌then◌else◌ {A = ℤ × Fs W} b (status_fatal_error, fs)
              (status_ok, record fs { client_state = put_client fs.client_state client s })).1) [
                | true ↦ same
                | false ↦ put_kept client s fs
              ]

  pub get_cwd_kept :
      (client : ℕ) (buffer : Bool) (bytes : ℕ) (fs : Fs W)
      → Keeps client fs (fs_get_cwd client buffer bytes fs)
  unfolding fs_get_cwd
  get_cwd_kept client buffer bytes fs = both (Keeps client fs) (client == 0) same (
      both (Keeps client fs) (not buffer) same
        (both (Keeps client fs) (bytes == 0) same (put_kept client _ fs)))

  pub make_dir_kept :
      (client : ℕ) (p : Option Str) (fs : Fs W) → Keeps client fs (fs_make_dir host client p fs)
  unfolding fs_make_dir
  make_dir_kept client none fs = same
  make_dir_kept client (some p) fs = world_kept _

  pub recorded_kept :
      (client : ℕ) (s : ℤ) (w : W) (fs : Fs W)
      → IsKept client fs (record_status client s (record fs { world = w }))
  recorded_kept client s w fs = after_world w (record_kept client s (record fs { world = w }))

  pub remove_kept :
      (client : ℕ) (p : Option Str) (fs : Fs W) → Keeps client fs (fs_remove host client p fs)
  unfolding fs_remove
  remove_kept client none fs = same
  remove_kept client (some p) fs =
      both (Keeps client fs) (host.remove (translate client (some p) fs) fs.world).0
        (recorded_kept client status_ok _ fs) (recorded_kept client _ _ fs)

  pub rename_kept :
      (client : ℕ) (p q : Option Str) (fs : Fs W) → Keeps client fs (fs_rename host client p q fs)
  unfolding fs_rename
  rename_kept client (some p) (some q) fs = recorded_kept client _ _ fs
  rename_kept client (some p) none fs = same
  rename_kept client none q fs = same

  pub get_mount_source_kept :
      (client : ℕ) (type : MountSourceType) (pointer : Bool) (fs : Fs W)
      → Keeps client fs (fs_get_mount_source client type pointer fs)
  unfolding fs_get_mount_source
  get_mount_source_kept client type true fs = record_kept client _ fs
  get_mount_source_kept client type false fs = record_kept client _ fs

  pub mount_kept :
      (client : ℕ) (source : Option MountSource) (target : Option Str) (fs : Fs W)
      → Keeps client fs (fs_mount client source target fs)
  unfolding fs_mount add_volume_mapping
  mount_kept client (some source) (some target) fs =
      then_kept
        (record { good = λ g. record { files = g.files; dirs = g.dirs }; others = λ d n. refl })
        (record_kept client status_ok _)
  mount_kept client (some source) none fs = record_kept client _ fs
  mount_kept client none target fs = record_kept client _ fs

  counted : (fs : Fs W) (n : ℕ) → IsKept 0 fs (record fs { clients = n })
  counted fs n = record {
    good = λ g. record { files = g.files; dirs = g.dirs };
    others = λ d m. refl;
  }

  pub add_client_kept : (client : ℕ) (fs : Fs W) → IsKept 0 fs (fs_add_client client fs).1
  unfolding fs_add_client
  add_client_kept client fs =
      both (λ (x : ℤ × Fs W). IsKept 0 fs x.1) (client == 0) {x = (status_fatal_error, fs)} same
        (counted fs _)

  pub del_client_kept : (client : ℕ) (fs : Fs W) → IsKept 0 fs (fs_del_client client fs).1
  unfolding fs_del_client
  del_client_kept client fs =
      both (λ (x : ℤ × Fs W). IsKept 0 fs x.1) (client == 0) {x = (status_fatal_error, fs)} same
        (counted fs _)
