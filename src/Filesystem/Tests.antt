-- ===== src/Filesystem/Tests.antt =====
-- A host that opens everything and counts its streams.
use coreinit_nx.Base.{ℕ, ◌+◌, ◌≡◌, refl, true, false, List, [], ◌∷◌, none, some, arith}
use coreinit_nx.Base.Int.{pos}
use coreinit_nx.Filesystem.{
  Host, Fs, error_not_found, status_ok, status_fatal_error, slot_for, open_slot, translate,
  fs_get_last_error, client_of,
}
use coreinit_nx.Filesystem.Files.{fs_open_file, fs_close_file}
use coreinit_nx.Filesystem.Dirs.{
  MountSourceType, fs_mount, fs_get_mount_source, fs_remove, fs_rename,
}
use coreinit_nx.Filesystem.Handles.{IsFileOpened, open_file_refines, open_then_close}
use coreinit_nx.Filesystem.Calls.{Call, open_file, change_dir, close_file, run, IsBacked}
use coreinit_nx.Filesystem.Runs.{run-IsBacked, run_apart}
use coreinit_nx.Filesystem.Errors.{Answers, missing, refused, done, last_error_lem}

abbrev counting_host : Host ℕ
counting_host = record {
  fopen = λ p mode w. (w + 1, w + 1);
  fclose = λ f w. w;
  is_dir = λ p w. false;
  fread = λ f size count w. ([], 0, w);
  fwrite = λ bytes size count f w. (count, w);
  fseek_set = λ f n w. (true, w);
  fseek_end = λ f w. (true, w);
  ftell = λ f w. pos 0;
  opendir = λ p w. (w + 1, w + 1);
  readdir = λ d w. (none, w);
  closedir = λ d w. w;
  mkdir = λ p w. (true, w);
  remove = λ p w. (true, w);
  rmdir = λ p w. (true, w);
  rename = λ p q w. (true, w);
}

-- One slot is in use, one is free, and client 8 is in /a.
abbrev some_files : Fs ℕ
some_files = record {
  world = 6;
  files = record { stream = 5; used = true } ∷ record { stream = 0; used = false } ∷ [];
  clients = 1;
  init = true;
  mappings = [];
  client_state = (8, record { cwd = 47 ∷ 97 ∷ []; last_error = error_not_found }) ∷ [];
  dirs = [];
}

some_files-IsBacked : IsBacked some_files
some_files-IsBacked = record { files = ((λ _. omega arith), ((λ e. absurd (cc)), tt)); dirs = tt }

open_file_refines_example :
    IsFileOpened counting_host some_files
      (translate 8 (some (98 ∷ [])) some_files)
      7
      7
      (fs_open_file counting_host 8 (some (98 ∷ [])) (some (114 ∷ [])) true some_files)
open_file_refines_example = open_file_refines counting_host 8 (98 ∷ []) (114 ∷ []) some_files

opened_two :
    (fs_open_file counting_host 0 (some (47 ∷ [])) (some (114 ∷ [])) true some_files).out ≡ some 2
unfolding fs_open_file open_slot
opened_two = refl

abbrev after_open : Fs ℕ
after_open = (fs_open_file counting_host 0 (some (47 ∷ [])) (some (114 ∷ [])) true some_files).after

open_then_close_example :
    ((fs_close_file counting_host 2 after_open).status ≡ status_ok)
    × ((k : ℕ)
        → slot_for (fs_close_file counting_host 2 after_open).after.files k
          ≡ slot_for some_files.files k)
    × ((fs_close_file counting_host 2 (fs_close_file counting_host 2 after_open).after).status
        ≡ status_fatal_error)
open_then_close_example =
    open_then_close counting_host 0 (47 ∷ []) (114 ∷ []) some_files 2 opened_two

abbrev by_others : List Call
by_others =
    open_file 9 (some (47 ∷ [])) (some (114 ∷ [])) true
    ∷ change_dir 9 (some (47 ∷ []))
    ∷ close_file 1
    ∷ []

run-IsBacked_example : IsBacked (run counting_host by_others some_files)
run-IsBacked_example = run-IsBacked counting_host by_others some_files some_files-IsBacked

run_apart_example :
    (fs_get_last_error 8 (run counting_host by_others some_files) ≡ fs_get_last_error 8 some_files)
    × ((client_of (run counting_host by_others some_files).client_state 8).cwd
        ≡ (client_of some_files.client_state 8).cwd)
run_apart_example =
    run_apart counting_host by_others some_files 8 (omega arith)
      (omega arith, (omega arith, (omega arith, tt)))

-- A host that refuses.
abbrev refusing_host : Host ℕ
refusing_host = record counting_host {
  fopen = λ p mode w. (0, w);
  rmdir = λ p w. (false, w);
  remove = λ p w. (false, w);
  rename = λ p q w. (false, w);
}

last_error_lem_example :
    Answers refusing_host 8
      (fs_open_file refusing_host 8 (some (98 ∷ [])) (some (114 ∷ [])) true some_files)
      missing
    × Answers refusing_host 8 (fs_remove refusing_host 8 (some (98 ∷ [])) some_files) missing
    × Answers refusing_host 8
        (fs_rename refusing_host 8 (some (98 ∷ [])) (some (99 ∷ [])) some_files)
        refused
    × Answers refusing_host 8 (fs_mount 8 none (some (47 ∷ [])) some_files) refused
    × Answers refusing_host 8 (fs_get_mount_source 8 MountSourceType.sd true some_files) done
last_error_lem_example =
    last_error_lem refusing_host 8 (98 ∷ []) (114 ∷ []) (99 ∷ []) some_files none (some (47 ∷ []))
      MountSourceType.sd true (omega arith)
