-- ===== src/UserConfig.antt =====
-- source/userconfig.cpp: the settings that a game reads. Horizon's language and region are arguments; a
-- key is a list of characters, and the buffer of an entry the value last written to it.
pub mod Reading
use coreinit_nx.Base.{
  ℕ, ◌+◌, ◌%◌, ◌^◌, Bool, true, false, not, ◌&&◌, ◌||◌, List, [], ◌∷◌, Option, none, some, ◌==◌,
  if◌then◌else◌,
}

-- `SetLanguage` and `SetRegion` of libnx, as far as the code names their values.
pub data Language : Type 0 where
  ja enus engb fr frca de it es es419 zhcn zhhans ko nl pt ptbr ru zhtw zhhant other_language :
      Language

pub data Region : Type 0 where
  jpn usa eur aus htk other_region : Region

pub cafe_language : Language → ℕ
cafe_language ja = 0
cafe_language enus = 1
cafe_language engb = 1
cafe_language fr = 2
cafe_language frca = 2
cafe_language de = 3
cafe_language it = 4
cafe_language es = 5
cafe_language es419 = 5
cafe_language zhcn = 6
cafe_language zhhans = 6
cafe_language ko = 7
cafe_language nl = 8
cafe_language pt = 9
cafe_language ptbr = 9
cafe_language ru = 10
cafe_language zhtw = 11
cafe_language zhhant = 11
cafe_language other_language = 1

unfoldable pub cafe_country : Region → ℕ
cafe_country jpn = 1
cafe_country usa = 49
cafe_country eur = 110
cafe_country aus = 65
cafe_country htk = 128
cafe_country other_region = 49

-- `UCDataType`, as far as `store` tells them apart.
pub data DataType : Type 0 where
  unsigned_byte unsigned_short unsigned_int signed_int other_type : DataType

pub data Error : Type 0 where
  ok key_not_found invalid_param : Error

-- `data` is none for a null buffer.
pub record SysConfig : Type 0 where
  pub name : List ℕ
  pub data_type : DataType
  pub error : Error
  pub data_size : ℕ
  pub buffer : Option ℕ

-- The value as an entry's type holds it: none for a type that `store` does not write.
pub narrow : DataType → ℕ → Option ℕ
narrow unsigned_byte value = some (value % 2 ^ 8)
narrow unsigned_short value = some (value % 2 ^ 16)
narrow unsigned_int value = some (value % 2 ^ 32)
narrow signed_int value = some (value % 2 ^ 32)
narrow other_type value = none

-- `store`: the entry with the value, if it could be written.
pub store_value : SysConfig → ℕ → Option SysConfig
unfolding narrow
store_value s value = elim s.buffer [
  | none ↦ none
  | some _ ↦ if s.data_size == 0 then none else elim (narrow s.data_type value) [
    | none ↦ none
    | some v ↦ some (record s { buffer = some v })
  ]
]

abbrev pub starts_with : List ℕ → List ℕ → Bool
starts_with [] s = true
starts_with (a ∷ p) [] = false
starts_with (a ∷ p) (b ∷ s) = a == b && starts_with p s

-- `strstr(s, p)`.
abbrev pub has_part : List ℕ → List ℕ → Bool
has_part p [] = starts_with p []
has_part p (c ∷ s) = starts_with p (c ∷ s) || has_part p s

-- The keys: language, cntry_reg, eula_agree, eco, initial_launch, parent.
abbrev pub language_key : List ℕ
language_key = 108 ∷ 97 ∷ 110 ∷ 103 ∷ 117 ∷ 97 ∷ 103 ∷ 101 ∷ []

abbrev pub cntry_reg_key : List ℕ
cntry_reg_key = 99 ∷ 110 ∷ 116 ∷ 114 ∷ 121 ∷ 95 ∷ 114 ∷ 101 ∷ 103 ∷ []

abbrev pub eula_agree_key : List ℕ
eula_agree_key = 101 ∷ 117 ∷ 108 ∷ 97 ∷ 95 ∷ 97 ∷ 103 ∷ 114 ∷ 101 ∷ 101 ∷ []

abbrev pub eco_key : List ℕ
eco_key = 101 ∷ 99 ∷ 111 ∷ []

abbrev pub initial_launch_key : List ℕ
initial_launch_key =
    105 ∷ 110 ∷ 105 ∷ 116 ∷ 105 ∷ 97 ∷ 108 ∷ 95 ∷ 108 ∷ 97 ∷ 117 ∷ 110 ∷ 99 ∷ 104 ∷ []

abbrev pub parent_key : List ℕ
parent_key = 112 ∷ 97 ∷ 114 ∷ 101 ∷ 110 ∷ 116 ∷ []

-- `resolve`: the entry answered, or none for a key that is not known or a value that is not written.
pub resolve : Language → Region → SysConfig → Option SysConfig
resolve language region s =
    if has_part language_key s.name
    then store_value s (cafe_language language)
    else if has_part cntry_reg_key s.name
    then store_value s (cafe_country region)
    else if has_part eula_agree_key s.name
    then store_value s 1
    else if has_part eco_key s.name
    then store_value s 0
    else if has_part initial_launch_key s.name
    then store_value s 0
    else if has_part parent_key s.name
    then store_value s 0
    else none

-- One entry of the loop of `UCReadSysConfig`.
pub read_entry : SysConfig → Option SysConfig → SysConfig
read_entry s none = record s { error = key_not_found }
read_entry s (some s') = record s' { error = ok }

pub read_all : Language → Region → Error → List SysConfig → List SysConfig × Error
read_all language region overall [] = ([], overall)
read_all language region overall (s ∷ ss) =
    let r = resolve language region s in
    let (rest, e) =
      read_all language region (elim r [ none ↦ key_not_found | some _ ↦ overall ]) ss in
    (read_entry s r ∷ rest, e)

-- `UCReadSysConfig`: none is a null pointer.
pub uc_read_sys_config :
    Language → Region → Option (List SysConfig) → Option (List SysConfig) × Error
uc_read_sys_config language region none = (none, invalid_param)
uc_read_sys_config language region (some ss) =
    let (ss', e) = read_all language region ok ss in (some ss', e)

pub accept_all : List SysConfig → List SysConfig
accept_all [] = []
accept_all (s ∷ ss) = record s { error = ok } ∷ accept_all ss

-- `UCWriteSysConfig` and `UCDeleteSysConfig`.
pub uc_write_sys_config : Option (List SysConfig) → Option (List SysConfig) × Error
uc_write_sys_config none = (none, invalid_param)
uc_write_sys_config (some ss) = (some (accept_all ss), ok)
