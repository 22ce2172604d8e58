-- ===== src/Filesystem/Runs.antt =====
-- Runs of calls by several clients.
use coreinit_nx.Base.{
  ℕ, ◌≡◌, ◌≢◌, refl, sym, ap, ◌∙◌, List, [], ◌∷◌, none, some, ◌==◌, if◌then◌else◌, All,
}
use coreinit_nx.Filesystem.{
  Host, Fs, error_ok, error_invalid_clienthandle, or_new, client_of, fs_get_last_error,
}
use coreinit_nx.Filesystem.Calls.{
  Call, open_file, close_file, read_file, read_file_with_pos, get_pos_file, set_pos_file,
  get_stat_file, write_file, change_dir, get_cwd, open_dir, read_dir, close_dir, make_dir, remove,
  rename, get_mount_source, mount, add_client, del_client, caller, step, run, IsBacked,
}
use coreinit_nx.Filesystem.Kept.{IsKept}
use coreinit_nx.Filesystem.FileCalls.{
  open_file_kept, close_file_kept, read_file_kept, read_file_with_pos_kept, get_pos_file_kept,
  set_pos_file_kept, get_stat_file_kept, write_file_kept,
}
use coreinit_nx.Filesystem.PathCalls.{
  change_dir_kept, get_cwd_kept, open_dir_kept, read_dir_kept, close_dir_kept, make_dir_kept,
  remove_kept, rename_kept, get_mount_source_kept, mount_kept, add_client_kept, del_client_kept,
}

module _ {W : Type 0} (host : Host W) where
  step_kept : (c : Call) (fs : Fs W) → IsKept (caller c) fs (step host c fs)
  step_kept (open_file client p mode pointer) fs = open_file_kept host client p mode pointer fs
  step_kept (close_file h) fs = close_file_kept host h fs
  step_kept (read_file buffer size count h) fs = read_file_kept host buffer size count h fs
  step_kept (read_file_with_pos buffer size count position h) fs =
      read_file_with_pos_kept host buffer size count position h fs
  step_kept (get_pos_file pointer h) fs = get_pos_file_kept host pointer h fs
  step_kept (set_pos_file position h) fs = set_pos_file_kept host position h fs
  step_kept (get_stat_file pointer h) fs = get_stat_file_kept host pointer h fs
  step_kept (write_file bytes size count h) fs = write_file_kept host bytes size count h fs
  step_kept (change_dir client p) fs = change_dir_kept host client p fs
  step_kept (get_cwd client buffer bytes) fs = get_cwd_kept host client buffer bytes fs
  step_kept (open_dir client p pointer) fs = open_dir_kept host client p pointer fs
  step_kept (read_dir pointer h) fs = read_dir_kept host pointer h fs
  step_kept (close_dir h) fs = close_dir_kept host h fs
  step_kept (make_dir client p) fs = make_dir_kept host client p fs
  step_kept (remove client p) fs = remove_kept host client p fs
  step_kept (rename client p q) fs = rename_kept host client p q fs
  step_kept (get_mount_source client type pointer) fs =
      get_mount_source_kept host client type pointer fs
  step_kept (mount client source target) fs = mount_kept host client source target fs
  step_kept (add_client client) fs = add_client_kept host client fs
  step_kept (del_client client) fs = del_client_kept host client fs

  -- Whatever the host answers, a run of calls on files, directories, paths and clients, from a
  -- state in which every file and directory handle in use has a stream that is not null, ends
  -- in such a state.
  pub run-IsBacked : (cs : List Call) (fs : Fs W) → IsBacked fs → IsBacked (run host cs fs)
  run-IsBacked [] fs g = g
  run-IsBacked (c ∷ cs) fs g = run-IsBacked cs (step host c fs) ((step_kept c fs).good g)

  -- The directory of a client that is not null, and the last error that `FSGetLastError`
  -- answers it, are the same after any run of calls that other clients make, mounts included.
  pub run_apart :
      (cs : List Call) (fs : Fs W) (d : ℕ)
      → d ≢ 0
      → All (λ c. caller c ≢ d) cs
      → (fs_get_last_error d (run host cs fs) ≡ fs_get_last_error d fs)
        × ((client_of (run host cs fs).client_state d).cwd ≡ (client_of fs.client_state d).cwd)
  unfolding client_of fs_get_last_error
  run_apart [] fs d z n = (refl, refl)
  run_apart (c ∷ cs) fs d z (n, ns) =
      let here = (step_kept c fs).others d (λ e. n (sym e)) in
      let (error, cwd) = run_apart cs (step host c fs) d z ns in
      (
        error
            ∙ ap
                (λ o.
                  if d == 0
                  then error_invalid_clienthandle
                  else elim o [ none ↦ error_ok | some s ↦ s.last_error ])
                here,
        cwd ∙ ap (λ o. (or_new o).cwd) here,
      )
