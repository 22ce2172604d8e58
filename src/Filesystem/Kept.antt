-- ===== src/Filesystem/Kept.antt =====
-- What each call leaves as it is: the other clients, and the streams behind handles.
use coreinit_nx.Base.{
  ℕ, ◌≡◌, ◌≢◌, refl, ◌∙◌, Bool, true, false, List, Option, none, some, ◌==◌, if◌then◌else◌, All,
}
use coreinit_nx.Base.Int.{ℤ}
use coreinit_nx.Filesystem.{Fs, Slot, HostClient, Result, find_client, put_client, record_status}
use coreinit_nx.Filesystem.Streams.{HasStream}
use coreinit_nx.Filesystem.Paths.{find_client-put_client_ne}
use coreinit_nx.Filesystem.Calls.{IsBacked}

-- What a call on behalf of a client keeps.
pub record IsKept {W : Type 0} (client : ℕ) (fs new : Fs W) : Type 0 where
  pub good : IsBacked fs → IsBacked new
  pub others : (d : ℕ) → d ≢ client → find_client new.client_state d ≡ find_client fs.client_state d

-- Both sides of a test and of a lookup.
pub both : {X : Type 0} (P : X → Type 0) (b : Bool) {x y : X} → P x → P y → P (if b then x else y)
both P true p q = p
both P false p q = q

pub each :
    {A X : Type 0} (P : X → Type 0) (o : Option A) {n : X} {k : A → X}
    → P n
    → ((a : A) → P (k a))
    → P (elim o [ none ↦ n | some a ↦ k a ])
each P none p q = p
each P (some a) p q = q a

module _ {W : Type 0} where
  pub same : {client : ℕ} {fs : Fs W} → IsKept client fs fs
  same = record { good = λ g. g; others = λ d n. refl }

  pub after_world :
      {client : ℕ} {fs new : Fs W} (w : W)
      → IsKept client (record fs { world = w }) new
      → IsKept client fs new
  after_world w k = record {
    good = λ g. k.good (record { files = g.files; dirs = g.dirs });
    others = k.others;
  }

  pub world_kept : {client : ℕ} {fs : Fs W} (w : W) → IsKept client fs (record fs { world = w })
  world_kept w = after_world w same

  pub then_kept :
      {client : ℕ} {a b c : Fs W} → IsKept client a b → IsKept client b c → IsKept client a c
  then_kept k l = record {
    good = λ g. l.good (k.good g);
    others = λ d n. l.others d n ∙ k.others d n;
  }

  pub put_kept :
      (client : ℕ) (s : HostClient) (fs : Fs W)
      → IsKept client fs (record fs { client_state = put_client fs.client_state client s })
  put_kept client s fs = record {
    good = λ g. record { files = g.files; dirs = g.dirs };
    others = λ d n. find_client-put_client_ne fs.client_state client d s n;
  }

  pub record_kept : (client : ℕ) (s : ℤ) (fs : Fs W) → IsKept client fs (record_status client s fs)
  unfolding record_status
  record_kept client s fs = both (IsKept client fs) (client == 0) same (put_kept client _ fs)

  -- Tables change by opening and closing alone.
  pub files_kept :
      {client : ℕ} (fs : Fs W) (w : W) (files : List Slot)
      → (All HasStream fs.files → All HasStream files)
      → IsKept client fs (record fs { world = w; files = files })
  files_kept fs w files h = record {
    good = λ g. record { files = h g.files; dirs = g.dirs };
    others = λ d n. refl;
  }

  pub dirs_kept :
      {client : ℕ} (fs : Fs W) (w : W) (dirs : List Slot)
      → (All HasStream fs.dirs → All HasStream dirs)
      → IsKept client fs (record fs { world = w; dirs = dirs })
  dirs_kept fs w dirs h = record {
    good = λ g. record { files = g.files; dirs = h g.dirs };
    others = λ d n. refl;
  }

-- The same of what a call answers.
abbrev pub Keeps : {W A : Type 0} → ℕ → Fs W → Result W A → Type 0
Keeps client fs r = IsKept client fs r.after
