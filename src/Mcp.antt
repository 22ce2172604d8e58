-- ===== src/Mcp.antt =====
-- source/mcp.cpp: the settings of the console that a game asks for. The region that Horizon tells, USA
-- where it tells none, is an argument; `MCP_Open` and `MCP_Close` only answer a constant.
use coreinit_nx.Base.{
  ℕ, ◌-◌, ◌==◌, if◌then◌else◌, ◌≡◌, ◌↔◌, ◌⊎◌, inl, inr, refl, Bool, true, false, List, ◌++◌, Option,
  none, some, replicate, take, arith,
}
use coreinit_nx.Base.Int.{ℤ, pos, negsuc}
use coreinit_nx.Base.Text.{codes}
use coreinit_nx.UserConfig.{Region, jpn, usa, eur, aus, htk, other_region, cafe_country}

-- The numbers of `MCPRegion` that the code answers.
abbrev pub region_japan : ℕ
region_japan = 0x01

abbrev pub region_usa : ℕ
region_usa = 0x02

abbrev pub region_europe : ℕ
region_europe = 0x04

abbrev pub region_taiwan : ℕ
region_taiwan = 0x40

pub cafe_region : Region → ℕ
cafe_region jpn = region_japan
cafe_region eur = region_europe
cafe_region aus = region_europe
cafe_region htk = region_taiwan
cafe_region usa = region_usa
cafe_region other_region = region_usa

-- The fields that are filled in; the others are 0.
pub record SysProdSettings : Type 0 where
  pub product_area : ℕ
  pub eeprom_version : ℕ
  pub game_region : ℕ
  pub ntsc_pal : List ℕ
  pub serial_id : List ℕ
  pub model_number : List ℕ
  pub version : ℕ

-- `snprintf(field, sizeof(field), "%s", text)` into a field that was cleared.
abbrev pub stored : ℕ → List ℕ → List ℕ
stored size text = take size (take (size - 1) text ++ replicate size 0)

abbrev pub standard : ℕ → List ℕ
standard region = if region == region_europe then codes "PAL" else codes "NTSC"

-- `MCP_GetSysProdSettings`, with whether there is a place for the settings.
pub mcp_get_sys_prod_settings : Region → Bool → ℤ × Option SysProdSettings
mcp_get_sys_prod_settings region false = (negsuc 0, none)
mcp_get_sys_prod_settings region true = (
  pos 0,
  some (record {
    product_area = cafe_region region;
    eeprom_version = 1;
    game_region = cafe_region region;
    ntsc_pal = stored 5 (standard (cafe_region region));
    serial_id = codes "000000000000";
    model_number = stored 16 (codes "coreinit-nx");
    version = 1;
  }),
)

-- The settings tell Europe just in the regions whose country, for `UCReadSysConfig`, is the United Kingdom
-- or Australia.
cafe_region-cafe_country :
    (region : Region)
    → (cafe_region region ≡ region_europe)
      ↔ ((cafe_country region ≡ 110) ⊎ (cafe_country region ≡ 65))
unfolding cafe_region cafe_country
cafe_region-cafe_country jpn = (λ e. absurd (omega arith), λ e. ground arith)
cafe_region-cafe_country usa = (λ e. absurd (omega arith), λ e. ground arith)
cafe_region-cafe_country eur = (λ e. inl refl, λ e. refl)
cafe_region-cafe_country aus = (λ e. inr refl, λ e. refl)
cafe_region-cafe_country htk = (λ e. absurd (omega arith), λ e. ground arith)
cafe_region-cafe_country other_region = (λ e. absurd (omega arith), λ e. ground arith)
