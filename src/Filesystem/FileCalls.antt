-- ===== src/Filesystem/FileCalls.antt =====
-- What the calls on files leave as it is.
use coreinit_nx.Base.{
  ℕ, sym, subst, inl, inr, Bool, true, false, not, ◌||◌, List, Option, none, some, ◌==◌,
  if◌then◌else◌, Bool-cases, arith,
}
use coreinit_nx.Base.Int.{ℤ, pos, pos_part, ltb_ℤ, to_word}
use coreinit_nx.Filesystem.{Str, Host, Fs, Result, status_ok, translate, slot_for}
use coreinit_nx.Filesystem.Files.{
  FsStat, measured, measure, refuse, open_failed, open_done, file_closed, fs_open_file,
  fs_close_file, fs_read_file, fs_read_file_with_pos, fs_get_pos_file, fs_set_pos_file,
  fs_get_stat_file, fs_write_file,
}
use coreinit_nx.Filesystem.Streams.{All-open_slot, All-close_slot}
use coreinit_nx.Filesystem.Kept.{
  both, each, same, after_world, world_kept, then_kept, record_kept, files_kept, Keeps,
}

module _ {W : Type 0} (host : Host W) where
  pub open_file_kept :
      (client : ℕ) (p mode : Option Str) (pointer : Bool) (fs : Fs W)
      → Keeps client fs (fs_open_file host client p mode pointer fs)
  unfolding fs_open_file
  open_file_kept client (some p) (some mode) true fs =
      let path = translate client (some p) fs in
      let (stream, w) = host.fopen path mode fs.world in
      elim (Bool-cases (stream == 0)) [
        | inl t ↦
            subst
              (λ b. Keeps client fs (
                if b then open_failed host client path fs w else open_done host client fs stream w))
              (sym t) (after_world w (record_kept client _ _))
        | inr f ↦
            subst
              (λ b. Keeps client fs (
                if b then open_failed host client path fs w else open_done host client fs stream w))
              (sym f)
              (then_kept
                (files_kept fs w _ (All-open_slot fs.files stream (λ e. ground (arith, f, e))))
                (record_kept client status_ok _))
      ]
  open_file_kept client (some p) (some mode) false fs = same
  open_file_kept client (some p) none pointer fs = same
  open_file_kept client none mode pointer fs = same

  pub close_file_kept : (h : ℕ) (fs : Fs W) → Keeps 0 fs (fs_close_file host h fs)
  unfolding fs_close_file
  close_file_kept h fs = elim (slot_for fs.files h) as (λ o. Keeps 0 fs (file_closed host h fs o)) [
    | none ↦ same
    | some f ↦ files_kept fs _ _ (All-close_slot fs.files h)
  ]

  pub read_file_kept :
      {client : ℕ} (buffer : Bool) (size count h : ℕ) (fs : Fs W)
      → Keeps client fs (fs_read_file host buffer size count h fs)
  unfolding fs_read_file
  read_file_kept {client} buffer size count h fs =
      both (Keeps client fs) (not buffer || size == 0) same
        (each (Keeps client fs) (slot_for fs.files h) same (λ f. world_kept _))

  pub read_file_with_pos_kept :
      (buffer : Bool) (size count position h : ℕ) (fs : Fs W)
      → Keeps 0 fs (fs_read_file_with_pos host buffer size count position h fs)
  unfolding fs_read_file_with_pos
  read_file_with_pos_kept buffer size count position h fs =
      each (Keeps 0 fs) (slot_for fs.files h) same (λ f.
        let (ok, w) = host.fseek_set f.stream position fs.world in
        both (Keeps 0 fs) ok
          (after_world w (read_file_kept buffer size count h (record fs { world = w })))
          (world_kept w))

  pub get_pos_file_kept :
      (pointer : Bool) (h : ℕ) (fs : Fs W) → Keeps 0 fs (fs_get_pos_file host pointer h fs)
  unfolding fs_get_pos_file
  get_pos_file_kept pointer h fs =
      both (Keeps 0 fs) (not pointer) same
        (each (Keeps 0 fs) (slot_for fs.files h) same (λ f. both (Keeps 0 fs) _ same same))

  pub set_pos_file_kept :
      (position h : ℕ) (fs : Fs W) → Keeps 0 fs (fs_set_pos_file host position h fs)
  unfolding fs_set_pos_file
  set_pos_file_kept position h fs = each (Keeps 0 fs) (slot_for fs.files h) same (λ f. world_kept _)

  pub measured_kept : (fs : Fs W) (end : ℤ) (back : W) → Keeps 0 fs (measured host fs end back)
  measured_kept fs end back =
      let done : Result W (Option FsStat) = record {
        status = status_ok;
        out = some (record { size = to_word 32 end; alloc_size = to_word 32 end });
        after = record fs { world = back };
      } in
      elim (ltb_ℤ end (pos 0))
        as (λ b. Keeps 0 fs (if b then refuse none (record fs { world = back }) else done)) [
          | true ↦ world_kept back
          | false ↦ world_kept back
        ]

  pub measure_kept :
      (stream : ℕ) (here : ℤ) (fs : Fs W) (e : Bool × W)
      → Keeps 0 fs (measure host stream here fs e)
  measure_kept stream here fs (false, w) = world_kept w
  measure_kept stream here fs (true, w) =
      measured_kept fs (host.ftell stream w) (host.fseek_set stream (pos_part here) w).1

  pub get_stat_file_kept :
      (pointer : Bool) (h : ℕ) (fs : Fs W) → Keeps 0 fs (fs_get_stat_file host pointer h fs)
  unfolding fs_get_stat_file
  get_stat_file_kept pointer h fs = both (Keeps 0 fs) (not pointer) same (
      each (Keeps 0 fs) (slot_for fs.files h) same (λ f.
        let here = host.ftell f.stream fs.world in
        let answer = measure host f.stream here fs (host.fseek_end f.stream fs.world) in
        elim (ltb_ℤ here (pos 0)) as (λ b. Keeps 0 fs (if b then refuse none fs else answer)) [
          | true ↦ same
          | false ↦ measure_kept f.stream here fs (host.fseek_end f.stream fs.world)
        ]))

  pub write_file_kept :
      (bytes : Option (List ℕ)) (size count h : ℕ) (fs : Fs W)
      → Keeps 0 fs (fs_write_file host bytes size count h fs)
  unfolding fs_write_file
  write_file_kept none size count h fs = same
  write_file_kept (some bytes) size count h fs =
      both (Keeps 0 fs) (size == 0) same
        (each (Keeps 0 fs) (slot_for fs.files h) same (λ f. world_kept _))
