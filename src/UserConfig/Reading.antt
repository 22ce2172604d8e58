-- ===== src/UserConfig/Reading.antt =====
-- What reading the settings answers as a whole.
use coreinit_nx.Base.{
  ◌≡◌, refl, sym, ap, ◌∙◌, Bool, true, false, ◌&&◌, List, [], ◌∷◌, Option, none, some,
  if◌then◌else◌,
}
use coreinit_nx.UserConfig.{
  Language, Region, SysConfig, Error, ok, key_not_found, invalid_param, resolve, read_entry,
  read_all, uc_read_sys_config,
}

abbrev pub is_ok : Error → Bool
is_ok ok = true
is_ok key_not_found = false
is_ok invalid_param = false

-- Was every entry answered?
abbrev pub all_ok : List SysConfig → Bool
all_ok [] = true
all_ok (s ∷ ss) = is_ok s.error && all_ok ss

-- The error of a call that answered entries so far, and those of a list.
abbrev pub overall_of : Error → List SysConfig → Error
overall_of e ss = if all_ok ss then e else key_not_found

same_error :
    (r : Option SysConfig)
    → (elim r as (λ x. Error) [ none ↦ key_not_found | some _ ↦ key_not_found ]) ≡ key_not_found
same_error none = refl
same_error (some s) = refl

stays_not_found :
    (language : Language) (region : Region) (ss : List SysConfig)
    → (read_all language region key_not_found ss).1 ≡ key_not_found
unfolding read_all
stays_not_found language region [] = refl
stays_not_found language region (s ∷ ss) =
    ap (λ e. (read_all language region e ss).1) (same_error (resolve language region s))
    ∙ stays_not_found language region ss

overall_step :
    (language : Language) (region : Region) (overall : Error) (s : SysConfig) (ss : List SysConfig)
    (r : Option SysConfig)
    → ((e : Error)
        → (read_all language region e ss).1 ≡ overall_of e (read_all language region e ss).0)
    → (read_all language region (elim r [ none ↦ key_not_found | some _ ↦ overall ]) ss).1
      ≡ overall_of overall (
          read_entry s r
          ∷ (read_all language region (elim r [ none ↦ key_not_found | some _ ↦ overall ]) ss).0)
unfolding read_entry
overall_step language region overall s ss none rest = stays_not_found language region ss
overall_step language region overall s ss (some s') rest = rest overall

read_all-overall_of :
    (language : Language) (region : Region) (ss : List SysConfig) (overall : Error)
    → (read_all language region overall ss).1
      ≡ overall_of overall (read_all language region overall ss).0
unfolding read_all
read_all-overall_of language region [] overall = refl
read_all-overall_of language region (s ∷ ss) overall =
    overall_step language region overall s ss (resolve language region s)
      (λ e. read_all-overall_of language region ss e)

-- `UCReadSysConfig` answers that all is well just when every entry was answered; else it answers that
-- a key was not found, wherever in the list that was.
pub uc_read_sys_config_lem :
    (language : Language) (region : Region) (ss ss' : List SysConfig) (e : Error)
    → uc_read_sys_config language region (some ss) ≡ (some ss', e)
    → e ≡ (if all_ok ss' then ok else key_not_found)
unfolding uc_read_sys_config
uc_read_sys_config_lem language region ss ss' e h =
    sym (ap (λ p. p.1) h)
    ∙ read_all-overall_of language region ss ok
    ∙ ap (λ o. elim o as (λ x. Error) [ none ↦ ok | some xs ↦ overall_of ok xs ]) (ap (λ p. p.0) h)
