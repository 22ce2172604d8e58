-- ===== src/Filesystem/Handles.antt =====
-- Opening and closing, against a finite map from handles to streams.
use native.Mathlib.Decide.{ℕ_discrete}
use coreinit_nx.Base.{
  ℕ, ◌≡◌, ◌≢◌, refl, sym, ap, ◌∙◌, subst, inl, inr, Bool, true, false, List, Option, none, some,
  ◌==◌, if◌then◌else◌, Bool-cases, Option-cases, ==_self, arith,
}
use coreinit_nx.Base.Int.{ℤ}
use coreinit_nx.Filesystem.{
  Str, Host, Fs, Slot, Result, status_ok, status_not_found, status_not_file, status_fatal_error,
  slot_for, open_slot, record_status, translate, put_client, client_of, status_to_error,
}
use coreinit_nx.Filesystem.Files.{
  open_failed, open_done, file_opened, fs_open_file, file_closed, fs_close_file,
}
use coreinit_nx.Filesystem.Slots.{IsOpened, open_slot-IsOpened, close_slot_lem}

-- What recording a status leaves as it is.
pub record IsRecorded {W : Type 0} (fs new : Fs W) : Type 0 where
  pub world : new.world ≡ fs.world
  pub files : new.files ≡ fs.files
  pub dirs : new.dirs ≡ fs.dirs
  pub mappings : new.mappings ≡ fs.mappings
  pub clients : new.clients ≡ fs.clients

pub record_status-IsRecorded :
    {W : Type 0} (client : ℕ) (s : ℤ) (fs : Fs W) → IsRecorded fs (record_status client s fs)
unfolding record_status
record_status-IsRecorded client s fs =
    let new : Fs _ = record fs {
      client_state =
          put_client fs.client_state client
            (record (client_of fs.client_state client) { last_error = status_to_error s });
    } in
    elim (client == 0) as (λ b. IsRecorded fs (if b then fs else new)) [
      | true ↦ record { world = refl; files = refl; dirs = refl; mappings = refl; clients = refl }
      | false ↦ record { world = refl; files = refl; dirs = refl; mappings = refl; clients = refl }
    ]

some-none : {A : Type 0} {a : A} → ◌≡◌ {A = Option A} (some a) none → ⊥
some-none e = cc

some_eq : {A : Type 0} {a b : A} → some a ≡ some b → a ≡ b
some_eq e = cc

IsOpened-here :
    (slots new : List Slot) (h stream : ℕ)
    → IsOpened slots new h stream
    → slot_for new h ≡ some (record { stream = stream; used = true })
IsOpened-here slots new h stream o =
    o.resolves h
    ∙ ap (λ b. if b then some (record { stream = stream; used = true }) else slot_for slots h)
        (==_self h)

-- What a handle resolves to after it was opened and closed again.
opened_then_closed :
    (slots new after : List Slot) (h stream : ℕ)
    → IsOpened slots new h stream
    → ((k : ℕ) → slot_for after k ≡ (if k == h then none else slot_for new k))
    → (k : ℕ) → slot_for after k ≡ slot_for slots k
opened_then_closed slots new after h stream o c k =
    let nested = λ (b : Bool).
      if◌then◌else◌ {A = Option Slot} b none
        (if b then some (record { stream = stream; used = true }) else slot_for slots k) in
    c k ∙ ap (λ x. if k == h then none else x) (o.resolves k) ∙ elim (Bool-cases (k == h)) [
      | inl t ↦
          let e : k ≡ h = ground (arith, t) in
          ap nested t ∙ sym o.was_free ∙ ap (slot_for slots) (sym e)
      | inr f ↦ ap nested f
    ]

module _ {W : Type 0} (host : Host W) where
  -- What opening a file promises, by the answer of `fopen`.
  pub record IsFileOpened (fs : Fs W) (path : Str) (stream : ℕ) (w : W) (r : Result W (Option ℕ))
      : Type 0 where
    pub world : r.after.world ≡ w
    pub dirs : r.after.dirs ≡ fs.dirs
    pub refused :
        stream ≡ 0
        → (r.out ≡ none)
          × (r.after.files ≡ fs.files)
          × (r.status ≡ (if host.is_dir path w then status_not_file else status_not_found))
    pub accepted :
        stream ≢ 0
        → (h : ℕ) × (r.out ≡ some h)
          × (r.status ≡ status_ok)
          × IsOpened fs.files r.after.files h stream

  open_failed-IsFileOpened :
      (client : ℕ) (fs : Fs W) (path : Str) (stream : ℕ) (w : W)
      → stream ≡ 0
      → IsFileOpened fs path stream w (open_failed host client path fs w)
  open_failed-IsFileOpened client fs path stream w e =
      let why = if host.is_dir path w then status_not_file else status_not_found in
      let k = record_status-IsRecorded client why (record fs { world = w }) in
      record {
        world = k.world;
        dirs = k.dirs;
        refused = λ _. (refl, k.files, refl);
        accepted = λ n. absurd (n e);
      }

  open_done-IsFileOpened :
      (client : ℕ) (fs : Fs W) (path : Str) (stream : ℕ) (w : W)
      → stream ≢ 0
      → IsFileOpened fs path stream w (open_done host client fs stream w)
  open_done-IsFileOpened client fs path stream w n =
      let (slots, h) = open_slot fs.files stream in
      let k = record_status-IsRecorded client status_ok (record fs { world = w; files = slots }) in
      record {
        world = k.world;
        dirs = k.dirs;
        refused = λ e. absurd (n e);
        accepted = λ _. (
          h,
          refl,
          refl,
          subst (λ x. IsOpened fs.files x h stream) (sym k.files)
              (open_slot-IsOpened fs.files stream),
        );
      }

  file_opened-IsFileOpened :
      (client : ℕ) (fs : Fs W) (path : Str) (stream : ℕ) (w : W)
      → IsFileOpened fs path stream w (file_opened host client path fs (stream, w))
  file_opened-IsFileOpened client fs path stream w =
      let split = λ (b : Bool).
        IsFileOpened fs path stream w
          (if b then open_failed host client path fs w else open_done host client fs stream w) in
      elim (Bool-cases (stream == 0)) [
        | inl t ↦
            subst split (sym t)
              (open_failed-IsFileOpened client fs path stream w (ground (arith, t)))
        | inr f ↦
            subst split (sym f)
              (open_done-IsFileOpened client fs path stream w (λ e. ground (arith, f, e)))
      ]

  -- `FSOpenFile` with a path, a mode and a place for the handle, on every answer of `fopen` for the
  -- translated path. A stream: the call answers OK and a handle above 0 that resolved to nothing and now
  -- resolves to the stream, every other handle as before. No stream: it answers that the path is a
  -- directory or that there is none, and no handle changes. Directories stay as they are.
  pub open_file_refines :
      (client : ℕ) (p mode : Str) (fs : Fs W)
      → let path = translate client (some p) fs in
        let answer = host.fopen path mode fs.world in
        IsFileOpened fs path answer.0 answer.1
          (fs_open_file host client (some p) (some mode) true fs)
  unfolding fs_open_file
  open_file_refines client p mode fs =
      let path = translate client (some p) fs in
      let answer = host.fopen path mode fs.world in
      file_opened-IsFileOpened client fs path answer.0 answer.1

  -- `FSCloseFile`: what it promises, by what the handle resolves to.
  pub record IsFileClosed (fs : Fs W) (h : ℕ) (r : Result W Unit) : Type 0 where
    pub refused : slot_for fs.files h ≡ none → (r.status ≡ status_fatal_error) × (r.after ≡ fs)
    pub accepted :
        (f : Slot)
        → slot_for fs.files h ≡ some f
        → (r.status ≡ status_ok)
          × (r.after.world ≡ (if f.stream == 0 then fs.world else host.fclose f.stream fs.world))
          × ((k : ℕ) → slot_for r.after.files k ≡ (if k == h then none else slot_for fs.files k))

  -- `FSCloseFile` of a handle that resolves to a stream answers OK and closes that stream; the handle
  -- resolves to nothing afterwards and every other one as before. Of any other handle it answers the
  -- fatal error and changes nothing.
  pub close_file_refines : (fs : Fs W) (h : ℕ) → IsFileClosed fs h (fs_close_file host h fs)
  unfolding fs_close_file
  close_file_refines fs h = elim (Option-cases (slot_for fs.files h)) [
    | inl n ↦
        subst (λ o. IsFileClosed fs h (file_closed host h fs o)) (sym n)
          (record { refused = λ _. (refl, refl); accepted = λ f e. absurd (some-none (sym e ∙ n)) })
    | inr (f, e) ↦
        subst (λ o. IsFileClosed fs h (file_closed host h fs o)) (sym e)
          (record {
            refused = λ n. absurd (some-none (sym e ∙ n));
            accepted = λ g e'. (
              refl,
              ap (λ s. if s.stream == 0 then fs.world else host.fclose s.stream fs.world)
                  (some_eq (sym e ∙ e')),
              close_slot_lem fs.files h f e,
            );
          })
  ]

  -- When `FSOpenFile` with a path, a mode and a place for the handle gives a handle,
  -- `FSCloseFile` of it answers OK and leaves every handle as it was before both; closing it
  -- again answers the fatal error.
  pub open_then_close :
      (client : ℕ) (p mode : Str) (fs : Fs W) (h : ℕ)
      → let r = fs_open_file host client (some p) (some mode) true fs in
        let s = fs_close_file host h r.after in
        r.out ≡ some h
        → (s.status ≡ status_ok)
          × ((k : ℕ) → slot_for s.after.files k ≡ slot_for fs.files k)
          × ((fs_close_file host h s.after).status ≡ status_fatal_error)
  open_then_close client p mode fs h e =
      let path = translate client (some p) fs in
      let r = fs_open_file host client (some p) (some mode) true fs in
      let stream = (host.fopen path mode fs.world).0 in
      let spec = open_file_refines client p mode fs in
      elim (ℕ_discrete stream 0) [
        | yes z ↦ let (n, a, b) = spec.refused z in absurd (some-none (sym e ∙ n))
        | no z ↦
            let (h', out, ok, o) = spec.accepted z in
            let same : h' ≡ h = some_eq (sym out ∙ e) in
            let here = subst (λ x. IsOpened fs.files r.after.files x stream) same o in
            let (s, w, c) =
              (close_file_refines r.after h).accepted _ (IsOpened-here _ _ h stream here) in
            let back = opened_then_closed fs.files r.after.files _ h stream here c in
            (s, back, ((close_file_refines _ h).refused (back h ∙ here.was_free)).0)
      ]
