-- ===== src/Filesystem/Paths.antt =====
-- Where paths lead: mounted prefixes and the directory of a client.
use coreinit_nx.Base.{
  ℕ, suc, zero, ◌-◌, ◌≤◌, ◌<◌, ◌≡◌, ◌≢◌, refl, sym, ap, ap₂, ◌∙◌, subst, inl, inr, Bool, true,
  false, List, [], ◌∷◌, ◌++◌, Option, none, some, ◌==◌, if◌then◌else◌, length, take, get_or, All,
  Bool-cases, Option-cases, ==_self, arith,
}
use coreinit_nx.Base.Int.{ℤ}
use coreinit_nx.Filesystem.{
  Str, Fs, Mapping, HostClient, Result, status_ok, status_fatal_error, is_relative, ends_slash,
  behind, at_client, strip_prefix, map_prefix, translate, find_client, put_client, client_of,
  or_new, add_volume_mapping, fs_change_dir,
}
use coreinit_nx.Filesystem.Files.{refuse}
use coreinit_nx.Filesystem.Dirs.{MountSource, fs_mount, fs_get_cwd}
use coreinit_nx.Filesystem.Handles.{record_status-IsRecorded}

-- No mapping of a list has a path's beginning.
abbrev pub HasNoPrefix : List Mapping → Str → Type 0
HasNoPrefix ms p = All (λ m. (rest : Str) → p ≢ m.wiiu ++ rest) ms

strip_prefix-append : (a rest : Str) → strip_prefix a (a ++ rest) ≡ some rest
strip_prefix-append [] rest = refl
strip_prefix-append (x ∷ a) rest =
    ap (λ b. if◌then◌else◌ {A = Option Str} b (strip_prefix a (a ++ rest)) none) (==_self x)
    ∙ strip_prefix-append a rest

strip_prefix-some : (a p rest : Str) → strip_prefix a p ≡ some rest → p ≡ a ++ rest
strip_prefix-some [] p rest e = cc
strip_prefix-some (x ∷ a) [] rest e = absurd (cc)
strip_prefix-some (x ∷ a) (y ∷ p) rest e = elim (Bool-cases (x == y)) [
  | inl t ↦
      let s : x ≡ y = ground (arith, t) in
      let tail =
        strip_prefix-some a p rest
          (sym (ap (λ b. if◌then◌else◌ {A = Option Str} b (strip_prefix a p) none) t) ∙ e) in
      ap₂ (λ c q. c ∷ q) (sym s) tail
  | inr f ↦
      let n : ◌≡◌ {A = Option Str} none (some rest) =
        sym (ap (λ b. if◌then◌else◌ {A = Option Str} b (strip_prefix a p) none) f) ∙ e in
      absurd (cc)
]

strip_prefix-none : (a p : Str) → ((rest : Str) → p ≢ a ++ rest) → strip_prefix a p ≡ none
strip_prefix-none a p h = elim (Option-cases (strip_prefix a p)) [
  | inl n ↦ n
  | inr (rest, e) ↦ absurd (h rest (strip_prefix-some a p rest e))
]

-- A mapping that is added last, for a path that no earlier one matches.
map_prefix-append :
    (ms : List Mapping) (wiiu host rest : Str)
    → HasNoPrefix ms (wiiu ++ rest)
    → map_prefix (ms ++ (record { wiiu = wiiu; host = host } ∷ [])) (wiiu ++ rest) ≡ host ++ rest
map_prefix-append [] wiiu host rest h =
    ap (λ o. elim o [ some r ↦ host ++ r | none ↦ wiiu ++ rest ]) (strip_prefix-append wiiu rest)
map_prefix-append (m ∷ ms) wiiu host rest h =
    ap
      (λ o. elim o [
        | some r ↦ m.host ++ r
        | none ↦ map_prefix (ms ++ (record { wiiu = wiiu; host = host } ∷ [])) (wiiu ++ rest)
      ])
      (strip_prefix-none m.wiiu (wiiu ++ rest) h.0)
    ∙ map_prefix-append ms wiiu host rest h.1

translate_absolute :
    {W : Type 0} (client : ℕ) (p : Str) (fs : Fs W)
    → is_relative p ≡ false
    → translate client (some p) fs ≡ map_prefix fs.mappings p
unfolding translate
translate_absolute client p fs e =
    ap
      (λ b.
        map_prefix fs.mappings (if b then at_client (find_client fs.client_state client) p else p))
      e

either_way : {A : Type 0} (b : Bool) (a : A) → (if b then a else a) ≡ a
either_way true a = refl
either_way false a = refl

fs_mount-mappings :
    {W : Type 0} (client : ℕ) (source : MountSource) (target : Str) (fs : Fs W)
    → (fs_mount client (some source) (some target) fs).after.mappings
      ≡ fs.mappings ++ (record { wiiu = target; host = 47 ∷ [] } ∷ [])
unfolding fs_mount add_volume_mapping
fs_mount-mappings client source target fs =
    (record_status-IsRecorded client status_ok _).mappings
    ∙ ap (λ host. fs.mappings ++ (record { wiiu = target; host = host } ∷ []))
        (either_way (get_or source 0 0 == 1) (47 ∷ []))

-- After `FSMount` on a target, an absolute path that begins with the target and with no prefix that was
-- mapped before leads to the root of the host followed by the rest of the path.
pub translate-fs_mount :
    {W : Type 0} (client : ℕ) (source : MountSource) (target rest : Str) (fs : Fs W)
    → is_relative (target ++ rest) ≡ false
    → HasNoPrefix fs.mappings (target ++ rest)
    → translate client
        (some (target ++ rest))
        (fs_mount client (some source) (some target) fs).after
      ≡ 47 ∷ rest
translate-fs_mount client source target rest fs a h =
    translate_absolute client (target ++ rest) _ a
    ∙ ap (λ ms. map_prefix ms (target ++ rest)) (fs_mount-mappings client source target fs)
    ∙ map_prefix-append fs.mappings target (47 ∷ []) rest h

pub find_client-put_client :
    (l : List (ℕ × HostClient)) (c : ℕ) (s : HostClient) → find_client (put_client l c s) c ≡ some s
find_client-put_client [] c s = ap (λ b. if b then some s else none) (==_self c)
find_client-put_client ((d, t) ∷ l) c s =
    let head = λ (b : Bool). find_client (if b then (d, s) ∷ l else (d, t) ∷ put_client l c s) c in
    elim (Bool-cases (d == c)) [
      | inl e ↦ ap head e ∙ ap (λ b. if b then some s else find_client l c) e
      | inr e ↦
          ap head e
          ∙ ap (λ b. if b then some t else find_client (put_client l c s) c) e
          ∙ find_client-put_client l c s
    ]

pub find_client-put_client_ne :
    (l : List (ℕ × HostClient)) (c d : ℕ) (s : HostClient)
    → d ≢ c
    → find_client (put_client l c s) d ≡ find_client l d
find_client-put_client_ne [] c d s n =
    let e : (c == d) ≡ false = ground (arith, n) in ap (λ b. if b then some s else none) e
find_client-put_client_ne ((k, t) ∷ l) c d s n =
    let head = λ (b : Bool). find_client (if b then (k, s) ∷ l else (k, t) ∷ put_client l c s) d in
    elim (Bool-cases (k == c)) [
      | inl e ↦
          let f : (k == d) ≡ false = ground (arith, n, e) in
          ap head e
          ∙ ap (λ b. if b then some s else find_client l d) f
          ∙ ap (λ b. if b then some t else find_client l d) (sym f)
      | inr e ↦
          ap head e ∙ ap (λ x. if k == d then some t else x) (find_client-put_client_ne l c d s n)
    ]

change_dir_state :
    {W : Type 0} (client : ℕ) (dir : Str) (fs : Fs W)
    → client ≢ 0
    → fs_change_dir client (some dir) fs ≡ (
      status_ok,
      record fs {
        client_state =
            put_client fs.client_state client
              (record (client_of fs.client_state client) { cwd = dir });
      },
    )
unfolding fs_change_dir
change_dir_state client dir fs n =
    let e : (client == 0) ≡ false = ground (arith, n) in
    ap
      (λ b. if b then (status_fatal_error, fs) else (
        status_ok,
        record fs {
          client_state =
              put_client fs.client_state client
                (record (client_of fs.client_state client) { cwd = dir });
        },
      ))
      e

translate_relative :
    {W : Type 0} (client : ℕ) (p dir : Str) (c : ℕ) (fs : Fs W) (s : HostClient)
    → find_client fs.client_state client ≡ some s
    → s.cwd ≡ c ∷ dir
    → is_relative p ≡ true
    → translate client (some p) fs ≡ map_prefix fs.mappings (behind (c ∷ dir) p)
unfolding translate
translate_relative client p dir c fs s e d r =
    ap
      (λ b.
        map_prefix fs.mappings (if b then at_client (find_client fs.client_state client) p else p))
      r
    ∙ ap (λ o. map_prefix fs.mappings (at_client o p)) e
    ∙ ap (λ w. map_prefix fs.mappings (elim w [ [] ↦ p | (c ∷ cwd) ↦ behind (c ∷ cwd) p ])) d

behind-absolute : (dir p : Str) → is_relative (behind (47 ∷ dir) p) ≡ false
behind-absolute dir p =
    elim (ends_slash (47 ∷ dir))
      as (λ b. is_relative ((if b then 47 ∷ dir else (47 ∷ dir) ++ (47 ∷ [])) ++ p) ≡ false) [
        | true ↦ refl
        | false ↦ refl
      ]

take_all : (n : ℕ) (xs : Str) → length xs ≤ n → take n xs ≡ xs
take_all zero [] l = refl
take_all zero (x ∷ xs) l = absurd (omega arith)
take_all (suc n) [] l = refl
take_all (suc n) (x ∷ xs) l = ap (λ ys. x ∷ ys) (take_all n xs (omega arith))

get_cwd_lem :
    {W : Type 0} (client bytes : ℕ) (fs : Fs W)
    → client ≢ 0
    → bytes ≢ 0
    → (fs_get_cwd client true bytes fs).out
      ≡ some (take (bytes - 1) (client_of fs.client_state client).cwd)
unfolding fs_get_cwd
get_cwd_lem {W = W} client bytes fs n m =
    let e : (client == 0) ≡ false = ground (arith, n) in
    let f : (bytes == 0) ≡ false = ground (arith, m) in
    let done : Result W (Option Str) = record {
      status = status_ok;
      out = some (take (bytes - 1) (client_of fs.client_state client).cwd);
      after = record fs {
        client_state = put_client fs.client_state client (client_of fs.client_state client);
      };
    } in
    ap₂ (λ b c. (if b then refuse none fs else if c then refuse none fs else done).out) e f

-- After a client that is not null changes to an absolute directory, a relative path leads where the
-- path behind that directory leads; and `FSGetCwd` answers the directory, into a buffer that is longer
-- than it.
pub translate-fs_change_dir :
    {W : Type 0} (client : ℕ) (dir p : Str) (bytes : ℕ) (fs : Fs W)
    → client ≢ 0
    → is_relative p ≡ true
    → length (47 ∷ dir) < bytes
    → let new = (fs_change_dir client (some (47 ∷ dir)) fs).1 in
      (translate client (some p) new ≡ translate client (some (behind (47 ∷ dir) p)) new)
      × ((fs_get_cwd client true bytes new).out ≡ some (47 ∷ dir))
unfolding client_of
translate-fs_change_dir {W = W} client dir p bytes fs n r l =
    let s : HostClient = record (client_of fs.client_state client) { cwd = 47 ∷ dir } in
    let new : Fs W = record fs { client_state = put_client fs.client_state client s } in
    let here = find_client-put_client fs.client_state client s in
    subst
      (λ (x : ℤ × Fs W).
        (translate client (some p) x.1 ≡ translate client (some (behind (47 ∷ dir) p)) x.1)
        × ((fs_get_cwd client true bytes x.1).out ≡ some (47 ∷ dir)))
      (sym (change_dir_state client (47 ∷ dir) fs n))
      (
        translate_relative client p dir 47 new s here refl r
            ∙ sym (translate_absolute client (behind (47 ∷ dir) p) new (behind-absolute dir p)),
        get_cwd_lem client bytes new n (omega arith)
            ∙ ap (λ o. some (take (bytes - 1) (or_new o).cwd)) here
            ∙ ap some (take_all (bytes - 1) (47 ∷ dir) (omega arith)),
      )
